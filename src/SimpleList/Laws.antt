-- ===== src/SimpleList/Laws.antt =====
-- What the list of src/slist.c keeps.
use libcap_utils.Prelude.{
  ℕ, ◌+◌, ◌≤◌, ◌≡◌, refl, ap, Bool, Option, none, some, List, [], ◌∷◌, ◌++◌, length, length-append,
  ◌==◌, if◌then◌else◌, get_elem?, arith, sym, ◌∙◌, append_assoc,
}
use mathlib.Core.List.{append-nil}
use libcap_utils.SimpleList.{SimpleList, slist_alloc, slist_put, slist_find, find_from}

-- Room for the slots in use, and some room at all.
pub record IsAllocated {K V : Type 0} (slist : SimpleList K V) : Type 0 where
  pub fits : length slist.slots ≤ slist.capacity
  pub some_room : 1 ≤ slist.capacity

-- The first answer, or else the second.
abbrev pub or_else : Option ℕ → Option ℕ → Option ℕ
or_else none j = j
or_else (some i) j = some i

module _ {K V : Type 0} where
  get_elem?-append_last :
      (xs : List (K × V)) (x : K × V) → get_elem? (xs ++ (x ∷ [])) (length xs) ≡ some x
  get_elem?-append_last [] x = refl
  get_elem?-append_last (y ∷ xs) x = get_elem?-append_last xs x

  -- A list with some room stays one: a key is put behind those in use, in an allocated slot, for the
  -- caller to fill, and the slots before it are the same.
  pub slist_put-IsAllocated :
      (slist : SimpleList K V) (key : K) (fresh : V)
      → IsAllocated slist
      → (next : SimpleList K V) × (slist_put slist key fresh ≡ some (next, length slist.slots))
        × IsAllocated next
        × (next.slots ≡ slist.slots ++ ((key, fresh) ∷ []))
        × (get_elem? next.slots (length slist.slots) ≡ some (key, fresh))
  unfolding slist_put slist_alloc
  slist_put-IsAllocated slist key fresh w =
      let slots = slist.slots ++ ((key, fresh) ∷ []) in
      let capacity : ℕ =
        if length slist.slots == slist.capacity
        then slist.capacity + slist.capacity
        else slist.capacity in
      let next : SimpleList K V = record { slots = slots; capacity = capacity } in
      let len = length-append slist.slots ((key, fresh) ∷ []) in
      (
        next,
        ground (arith, w.fits, w.some_room),
        record {
          fits = ground (arith, w.fits, w.some_room, len);
          some_room = ground (arith, w.some_room);
        },
        refl,
        get_elem?-append_last slist.slots (key, fresh),
      )

  find_from-append :
      (same : K → Bool) (xs : List (K × V)) (key : K) (v : V) (i : ℕ)
      → find_from same (xs ++ ((key, v) ∷ [])) i
        ≡ or_else (find_from same xs i) (if same key then some (i + length xs) else none)
  unfolding find_from
  find_from-append same [] key v i = ground arith
  find_from-append same ((k, w) ∷ xs) key v i =
      ground (arith, find_from-append same xs key v (i + 1))

  -- After a key was put, a search finds what it found before, and a search that found nothing finds
  -- the new key exactly if the comparison takes it as equal, at the index that was returned.
  slist_find-put :
      (slist next : SimpleList K V) (key : K) (fresh : V) (index : ℕ) (same : K → Bool)
      → slist_put slist key fresh ≡ some (next, index)
      → slist_find next same
        ≡ or_else (slist_find slist same) (if same key then some index else none)
  unfolding slist_put slist_find slist_alloc
  slist_find-put slist next key fresh index same h =
      let slots : next.slots ≡ slist.slots ++ ((key, fresh) ∷ []) = ground (arith, h) in
      let last : index ≡ length slist.slots = ground (arith, h) in
      let zero_plus : 0 + length slist.slots ≡ length slist.slots = omega arith in
      rw (slots, last) (rw (sym zero_plus) (find_from-append same slist.slots key fresh 0))

  -- Putting keys one after the other.
  unfoldable pub put_all : SimpleList K V → List (K × V) → Option (SimpleList K V)
  put_all slist [] = some slist
  put_all slist ((k, v) ∷ rest) = elim (slist_put slist k v) [
    | none ↦ none
    | some (next, index) ↦ put_all next rest
  ]

  -- From a list with some room any number of keys can be put, in their order, without a write behind
  -- the allocated slots.
  put_all-slots :
      (slist : SimpleList K V) (entries : List (K × V))
      → IsAllocated slist
      → (next : SimpleList K V) × (put_all slist entries ≡ some next)
        × (next.slots ≡ slist.slots ++ entries)
  unfolding put_all
  put_all-slots slist [] w = (slist, refl, sym (append-nil slist.slots))
  put_all-slots slist ((k, v) ∷ rest) w =
      let (next, e, w', slots, _) = slist_put-IsAllocated slist k v w in
      let (last, p, all) = put_all-slots next rest w' in
      (
        last,
        rw (put_all, e) p,
        all
            ∙ ap (λ (l : List (K × V)). l ++ rest) slots
            ∙ append_assoc slist.slots ((k, v) ∷ []) rest,
      )
