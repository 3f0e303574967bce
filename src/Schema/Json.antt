-- ===== src/Schema/Json.antt =====
-- Decoded JSON values, with reflect.DeepEqual on them. A map is its members, each key once, in the
-- order in which `range` takes them; float64 is an interface.
use crewai_go.Base.{
  ℕ, zero, suc, ◌+◌, ◌==◌, if◌then◌else◌, Bool, true, false, ◌&&◌, ◌||◌, Option, none, some, String,
  str_eq,
}

mutual
  pub data Json (F : Type 0) : Type 0 where
    null : Json F
    boolean : Bool → Json F
    number : F → Json F
    string : String → Json F
    array : Items F → Json F
    object : Members F → Json F

  pub data Items (F : Type 0) : Type 0 where
    no_items : Items F
    item : Json F → Items F → Items F

  pub data Members (F : Type 0) : Type 0 where
    no_members : Members F
    member : String → Json F → Members F → Members F

bool_eq : Bool → Bool → Bool
bool_eq true b = b
bool_eq false true = false
bool_eq false false = true

module _ {F : Type 0} where
  unfoldable pub get : String → Members F → Option (Json F)
  get k no_members = none
  get k (member j v m) = if str_eq j k then some v else get k m

  unfoldable pub has_key : String → Members F → Bool
  has_key k no_members = false
  has_key k (member j v m) = str_eq j k || has_key k m

  -- The copy without a key.
  unfoldable pub without : String → Members F → Members F
  without k no_members = no_members
  without k (member j v m) = let rest = without k m in if str_eq j k then rest else member j v rest

  pub count_members : Members F → ℕ
  count_members no_members = 0
  count_members (member k v m) = suc (count_members m)

  pub count_items : Items F → ℕ
  count_items no_items = 0
  count_items (item x xs) = suc (count_items xs)

  unfoldable pub item_at : ℕ → Items F → Option (Json F)
  item_at i no_items = none
  item_at zero (item x xs) = some x
  item_at (suc i) (item x xs) = item_at i xs

  -- reflect.DeepEqual; two maps are equal if they are as long and have equal values at each key.
  unfoldable mutual
    unfolding get count_members bool_eq

    pub deep_equal : (F → F → Bool) → Json F → Json F → Bool
    deep_equal eq null null = true
    deep_equal eq (boolean b) (boolean c) = bool_eq b c
    deep_equal eq (number f) (number g) = eq f g
    deep_equal eq (string s) (string t) = str_eq s t
    deep_equal eq (array xs) (array ys) = items_equal eq xs ys
    deep_equal eq (object m) (object n) = count_members m == count_members n && members_equal eq m n
    deep_equal eq _ _ = false

    pub items_equal : (F → F → Bool) → Items F → Items F → Bool
    items_equal eq no_items no_items = true
    items_equal eq (item x xs) (item y ys) = deep_equal eq x y && items_equal eq xs ys
    items_equal eq _ _ = false

    pub members_equal : (F → F → Bool) → Members F → Members F → Bool
    members_equal eq no_members n = true
    members_equal eq (member k v m) n =
        elim (get k n) [ none ↦ false | some w ↦ deep_equal eq v w ] && members_equal eq m n

-- The number of the nodes of a value.
unfoldable mutual
  pub size : {F : Type 0} → Json F → ℕ
  size null = 1
  size (boolean b) = 1
  size (number f) = 1
  size (string s) = 1
  size (array xs) = suc (size_items xs)
  size (object m) = suc (size_members m)

  pub size_items : {F : Type 0} → Items F → ℕ
  size_items no_items = 0
  size_items (item x xs) = size x + size_items xs

  pub size_members : {F : Type 0} → Members F → ℕ
  size_members no_members = 0
  size_members (member k v m) = size v + size_members m
