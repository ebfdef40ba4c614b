-- ===== src/SimpleList.antt =====
-- src/slist.c: an array of keys and values that grows by doubling.
pub mod Laws
use libcap_utils.Prelude.{
  ℕ, zero, suc, ◌+◌, ◌≤◌, ◌<◌, Bool, Option, none, some, List, [], ◌∷◌, ◌++◌, length, ◌==◌, ltb,
  if◌then◌else◌, get_elem?,
}

-- `struct simple_list` with the slots in use, each a key and a value; `capacity` slots are allocated.
-- A new slot holds what `realloc` left there, `fresh`.
pub record SimpleList (K V : Type 0) : Type 0 where
  pub slots : List (K × V)
  pub capacity : ℕ

module _ {K V : Type 0} where
  unfoldable pub slist_alloc : SimpleList K V → ℕ → SimpleList K V
  slist_alloc slist growth = record slist { capacity = slist.capacity + growth }

  unfoldable pub slist_init : ℕ → SimpleList K V
  unfolding slist_alloc
  slist_init initial_size = slist_alloc (record { slots = []; capacity = 0 }) initial_size

  unfoldable pub slist_clear : SimpleList K V → SimpleList K V
  slist_clear slist = record slist { slots = [] }

  unfoldable pub slist_free : SimpleList K V → SimpleList K V
  unfolding slist_clear
  slist_free slist = record (slist_clear slist) { capacity = 0 }

  -- The index of the first key that the comparison takes as equal.
  unfoldable pub find_from : (K → Bool) → List (K × V) → ℕ → Option ℕ
  find_from same [] i = none
  find_from same ((k, v) ∷ slots) i =
      let rest = find_from same slots (i + 1) in if same k then some i else rest

  unfoldable pub slist_find : SimpleList K V → (K → Bool) → Option ℕ
  unfolding find_from
  slist_find slist same = find_from same slist.slots 0

  -- The new list, with the index of the slot that the returned pointer is to. `none` is a write
  -- behind the allocated slots.
  unfoldable pub slist_put : SimpleList K V → K → V → Option (SimpleList K V × ℕ)
  unfolding slist_alloc
  slist_put slist key fresh =
      let index = length slist.slots in
      let grown = if index == slist.capacity then slist_alloc slist slist.capacity else slist in
      if ltb index grown.capacity
      then some (record grown { slots = slist.slots ++ ((key, fresh) ∷ []) }, index)
      else none
