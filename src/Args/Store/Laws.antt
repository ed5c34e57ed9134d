-- ===== src/Args/Store/Laws.antt =====
-- Reading behind writing.
use justhttp.Base.{
  ◌+◌, ◌≡◌, refl, sym, ap, inl, inr, Bool, true, not, ◌||◌, Option, none, some, List, [], ◌∷◌, ◌++◌,
  map, append-nil, append_assoc, arith, if◌then◌else◌, Bool-cases, Option-cases, length,
  length-append, Bytes, equal, equal_iff, equal_symm, is_none,
}
use justhttp.Args.Slots.{ArgsKv, Slots}
use justhttp.Args.Store.{
  stored, append_arg, set_first, set_arg, has_arg, peek_arg, peek_multi, copy_kv, copy_slots,
  copy_to,
}

pub visible-append_arg :
    (h : Slots) (key value : Bytes) (flag : Bool)
    → (append_arg h key value flag).visible
      ≡ h.visible ++ (record { key = key; value = stored value flag; no_value = flag } ∷ [])
unfolding append_arg
visible-append_arg h key value flag = refl

peek_arg-append :
    (kvs : List ArgsKv) (kv : ArgsKv) (k : Bytes)
    → peek_arg (kvs ++ kv ∷ []) k ≡ elim (peek_arg kvs k) [
      | none ↦ (if equal kv.key k then some kv.value else none)
      | some v ↦ some v
    ]
unfolding peek_arg
peek_arg-append [] kv k = refl
peek_arg-append (x ∷ kvs) kv k = ground (arith, peek_arg-append kvs kv k)

-- `setArg` finds a slot exactly if there is a key to be found.
peek_arg-set_first-none :
    (kvs : List ArgsKv) (key value : Bytes) (flag : Bool)
    → set_first kvs key value flag ≡ none
    → peek_arg kvs key ≡ none
unfolding set_first peek_arg
peek_arg-set_first-none [] key value flag h = refl
peek_arg-set_first-none (x ∷ kvs) key value flag h =
    ground (arith, peek_arg-set_first-none kvs key value flag, equal_symm key x.key)

peek_arg-set_first :
    (kvs : List ArgsKv) (key value : Bytes) (flag : Bool) (k : Bytes) {kvs' : List ArgsKv}
    → set_first kvs key value flag ≡ some kvs'
    → peek_arg kvs' k ≡ (if equal key k then some (stored value flag) else peek_arg kvs k)
unfolding set_first peek_arg
peek_arg-set_first [] key value flag k h = cc
peek_arg-set_first (x ∷ kvs) key value flag k {kvs'} h =
    elim (Option-cases (set_first kvs key value flag)) [
      | inl absent ↦
          ground (arith, absent, h, equal_iff key x.key, equal_iff x.key k, equal_iff key k)
      | inr (r, found) ↦ ground (
        arith,
        found,
        h,
        peek_arg-set_first kvs key value flag k found,
        equal_iff key x.key,
        equal_iff x.key k,
        equal_iff key k,
      )
    ]

-- A key that was not there is read from the new slot alone.
peek_new :
    (o : Option Bytes) (key k v : Bytes)
    → (equal key k ≡ true → o ≡ none)
    → (elim o [ none ↦ (if equal key k then some v else none) | some w ↦ some w ])
      ≡ (if equal key k then some v else o)
peek_new none key k v h = refl
peek_new (some w) key k v h = elim (Bool-cases (equal key k)) [
  | inl same ↦ absurd (some_ne_none (h same))
  | inr other ↦ rw other
]
  where
    some_ne_none : some w ≡ none → ⊥
    some_ne_none e = cc

-- After `Set`, `Peek` of the key gives the value that was set, empty if it was set with no value,
-- and every other key gives what it gave before.
pub peek_arg-set_arg :
    (h : Slots) (key value : Bytes) (flag : Bool) (k : Bytes)
    → peek_arg (set_arg h key value flag).visible k
      ≡ (if equal key k then some (stored value flag) else peek_arg h.visible k)
unfolding set_arg
peek_arg-set_arg h key value flag k = elim (Option-cases (set_first h.visible key value flag)) [
  | inl absent ↦
      rw (absent, set_arg)
        (rw (visible-append_arg h key value flag, peek_arg-append h.visible _ k)
          (peek_new (peek_arg h.visible k) key k _ (λ same.
            rw (← (equal_iff key k).0 same)
              (peek_arg-set_first-none h.visible key value flag absent))))
  | inr (r, found) ↦ rw (found, set_arg) (peek_arg-set_first h.visible key value flag k found)
]

-- `Has` is whether `Peek` finds something.
has_arg-peek_arg : (kvs : List ArgsKv) (k : Bytes) → has_arg kvs k ≡ not (is_none (peek_arg kvs k))
unfolding has_arg peek_arg
has_arg-peek_arg [] k = refl
has_arg-peek_arg (x ∷ kvs) k = ground (arith, has_arg-peek_arg kvs k, equal_symm k x.key)

-- After `Set` the key is there, and every other key is there if it was before.
pub has_arg-set_arg :
    (h : Slots) (key value : Bytes) (flag : Bool) (k : Bytes)
    → has_arg (set_arg h key value flag).visible k ≡ equal key k || has_arg h.visible k
has_arg-set_arg h key value flag k =
    rw (has_arg-peek_arg, peek_arg-set_arg h key value flag k, has_arg-peek_arg)
      (elim (Bool-cases (equal key k)) [ inl same ↦ rw same | inr other ↦ rw other ])

length-set_first :
    (kvs : List ArgsKv) (key value : Bytes) (flag : Bool) {kvs' : List ArgsKv}
    → set_first kvs key value flag ≡ some kvs'
    → (length kvs' ≡ length kvs) × (has_arg kvs key ≡ true)
unfolding set_first has_arg
length-set_first [] key value flag h = cc
length-set_first (x ∷ kvs) key value flag {kvs'} h =
    elim (Option-cases (set_first kvs key value flag)) [
      | inl absent ↦ ground (arith, absent, h)
      | inr (r, found) ↦ ground (arith, found, h, length-set_first kvs key value flag found)
    ]

-- `Set` of a key that is there adds no slot, and of another key adds one.
pub length-set_arg :
    (h : Slots) (key value : Bytes) (flag : Bool)
    → length (set_arg h key value flag).visible
      ≡ (if has_arg h.visible key then length h.visible else length h.visible + 1)
unfolding set_arg
length-set_arg h key value flag = elim (Option-cases (set_first h.visible key value flag)) [
  | inl absent ↦
      rw (absent, set_arg)
        (rw (has_arg-peek_arg, peek_arg-set_first-none h.visible key value flag absent)
          (length-append h.visible _))
  | inr (r, found) ↦
      let (same, here) = length-set_first h.visible key value flag found in
      rw (found, set_arg) (rw here same)
]

values_of : Bytes → List ArgsKv → List Bytes
values_of key [] = []
values_of key (kv ∷ kvs) =
    if equal kv.key key then kv.value ∷ values_of key kvs else values_of key kvs

peek_multi-values_of :
    (kvs : List ArgsKv) (key : Bytes) (values : List Bytes)
    → peek_multi kvs key values ≡ values ++ values_of key kvs
unfolding peek_multi values_of
peek_multi-values_of [] key values = sym (append-nil values)
peek_multi-values_of (kv ∷ kvs) key values = ground (
  arith,
  peek_multi-values_of kvs key (values ++ kv.value ∷ []),
  peek_multi-values_of kvs key values,
  append_assoc values (kv.value ∷ []) (values_of key kvs),
)

values_of-append :
    (key : Bytes) (kvs : List ArgsKv) (kv : ArgsKv)
    → values_of key (kvs ++ kv ∷ [])
      ≡ values_of key kvs ++ (if equal kv.key key then kv.value ∷ [] else [])
unfolding values_of
values_of-append key [] kv = ground arith
values_of-append key (x ∷ kvs) kv = ground (arith, values_of-append key kvs kv)

-- `Add` puts its value behind the values of its key, and leaves those of every other key.
pub peek_multi-append_arg :
    (h : Slots) (key value : Bytes) (flag : Bool) (k : Bytes)
    → peek_multi (append_arg h key value flag).visible k []
      ≡ peek_multi h.visible k [] ++ (if equal key k then stored value flag ∷ [] else [])
peek_multi-append_arg h key value flag k =
    rw (visible-append_arg h key value flag, peek_multi-values_of, peek_multi-values_of)
      (values_of-append k h.visible _)

visible-copy_slots : (srcs dst : List ArgsKv) → (copy_slots dst srcs).visible ≡ map copy_kv srcs
unfolding copy_slots
visible-copy_slots [] dst = refl
visible-copy_slots (src ∷ srcs) [] = ap (◌∷◌ (copy_kv src)) (visible-copy_slots srcs [])
visible-copy_slots (src ∷ srcs) (slot ∷ dst) = ap (◌∷◌ (copy_kv src)) (visible-copy_slots srcs dst)

-- `CopyTo` leaves the source's arguments in the destination, whatever this held before; a value
-- beside a set flag is dropped.
pub copy_to-map : (srcs : List ArgsKv) (dst : Slots) → (copy_to srcs dst).visible ≡ map copy_kv srcs
unfolding copy_to
copy_to-map srcs dst = visible-copy_slots srcs _
