-- ===== src/UserData/Laws.antt =====
-- `Get` behind `Set`, and what `Reset` leaves.
use justhttp.Base.{
  ◌≡◌, refl, sym, ap, ◌≢◌, inl, inr, true, Option, none, some, List, [], ◌∷◌, ◌++◌, arith,
  if◌then◌else◌, Bool-cases, Option-cases, All, All-append, Bytes, equal, equal_iff,
}
use justhttp.UserData.{UserDataKv, UserData, set_value, add_value, set, get_value, get}

-- No key occurs twice.
abbrev pub IsDistinct : List Bytes → Type 0
IsDistinct [] = Unit
IsDistinct (k ∷ ks) = All (λ j. j ≢ k) ks × IsDistinct ks

All-last :
    (k key : Bytes) (ks : List Bytes)
    → All (λ j. j ≢ k) ks
    → key ≢ k
    → All (λ j. j ≢ k) (ks ++ key ∷ [])
All-last k key ks h ne = All-append (λ j. j ≢ k) ks (key ∷ []) h (ne, tt)

IsDistinct-append :
    (ks : List Bytes) (key : Bytes)
    → IsDistinct ks
    → All (λ k. k ≢ key) ks
    → IsDistinct (ks ++ key ∷ [])
IsDistinct-append [] key h f = (tt, tt)
IsDistinct-append (k ∷ ks) key (h, hs) (f, fs) =
    (All-last k key ks h (λ e. f (sym e)), IsDistinct-append ks key hs fs)

module _ {Value : Type 0} where
  abbrev pub keys : List (UserDataKv Value) → List Bytes
  keys [] = []
  keys (kv ∷ kvs) = kv.key ∷ keys kvs

  get_value-append :
      (kvs : List (UserDataKv Value)) (kv : UserDataKv Value) (k : Bytes)
      → get_value (kvs ++ kv ∷ []) k ≡ elim (get_value kvs k) [
        | none ↦ (if equal kv.key k then some kv.value else none)
        | some v ↦ some v
      ]
  unfolding get_value
  get_value-append [] kv k = refl
  get_value-append (x ∷ kvs) kv k = ground (arith, get_value-append kvs kv k)

  get_value-set_value-none :
      (kvs : List (UserDataKv Value)) (key : Bytes) (v : Value)
      → set_value kvs key v ≡ none
      → get_value kvs key ≡ none
  unfolding set_value get_value
  get_value-set_value-none [] key v h = refl
  get_value-set_value-none (x ∷ kvs) key v h = ground (arith, get_value-set_value-none kvs key v)

  get_value-set_value :
      (kvs : List (UserDataKv Value)) (key : Bytes) (v : Value) (k : Bytes)
      {kvs' : List (UserDataKv Value)}
      → set_value kvs key v ≡ some kvs'
      → get_value kvs' k ≡ (if equal key k then some v else get_value kvs k)
  unfolding set_value get_value
  get_value-set_value [] key v k h = cc
  get_value-set_value (x ∷ kvs) key v k {kvs'} h = elim (Option-cases (set_value kvs key v)) [
    | inl absent ↦
        ground (arith, absent, h, equal_iff x.key key, equal_iff x.key k, equal_iff key k)
    | inr (r, found) ↦ ground (
      arith,
      found,
      h,
      get_value-set_value kvs key v k found,
      equal_iff x.key key,
      equal_iff x.key k,
      equal_iff key k,
    )
  ]

  visible-add_value :
      (d : UserData Value) (key : Bytes) (v : Value)
      → (add_value d key v).visible ≡ d.visible ++ ((record { key = key; value = v }) ∷ [])
  unfolding add_value
  visible-add_value d key v = ground arith

  get_added :
      (o : Option Value) (key k : Bytes) (v : Value)
      → (equal key k ≡ true → o ≡ none)
      → (elim o [ none ↦ (if equal key k then some v else none) | some w ↦ some w ])
        ≡ (if equal key k then some v else o)
  get_added none key k v h = refl
  get_added (some w) key k v h = elim (Bool-cases (equal key k)) [
    | inl same ↦ let e : some w ≡ none = h same in cc
    | inr other ↦ rw other
  ]

  keys-set_value :
      (kvs : List (UserDataKv Value)) (key : Bytes) (v : Value) {kvs' : List (UserDataKv Value)}
      → set_value kvs key v ≡ some kvs'
      → keys kvs' ≡ keys kvs
  unfolding set_value
  keys-set_value [] key v h = cc
  keys-set_value (x ∷ kvs) key v {kvs'} h = elim (Option-cases (set_value kvs key v)) [
    | inl absent ↦ ground (arith, absent, h)
    | inr (r, found) ↦ ground (arith, found, h, keys-set_value kvs key v found)
  ]

  keys_lack :
      (kvs : List (UserDataKv Value)) (key : Bytes) (v : Value)
      → set_value kvs key v ≡ none
      → All (λ k. k ≢ key) (keys kvs)
  unfolding set_value
  keys_lack [] key v h = tt
  keys_lack (x ∷ kvs) key v h = ground (arith, keys_lack kvs key v, equal_iff x.key key)

  keys-append :
      (kvs : List (UserDataKv Value)) (kv : UserDataKv Value)
      → keys (kvs ++ kv ∷ []) ≡ keys kvs ++ kv.key ∷ []
  keys-append [] kv = refl
  keys-append (x ∷ kvs) kv = ap (◌∷◌ x.key) (keys-append kvs kv)

  -- If the keys of the slots in use are distinct, they are so after `Set`.
  pub set-IsDistinct :
      (d : UserData Value) (key : Bytes) (v : Value)
      → IsDistinct (keys d.visible)
      → IsDistinct (keys (set d key v).visible)
  unfolding set
  set-IsDistinct d key v h = elim (Option-cases (set_value d.visible key v)) [
    | inl absent ↦
        rw (absent, set)
          (rw (visible-add_value d key v, keys-append d.visible _)
            (IsDistinct-append (keys d.visible) key h (keys_lack d.visible key v absent)))
    | inr (r, found) ↦ rw (found, set) (rw (keys-set_value d.visible key v found) h)
  ]

  -- After `Set`, `Get` of the key gives the value, and of every other key what it gave before,
  -- whether a slot of the key, a spare slot or a new one was used.
  pub get-set :
      (d : UserData Value) (key : Bytes) (v : Value) (k : Bytes)
      → get (set d key v) k ≡ (if equal key k then some v else get d k)
  unfolding get set
  get-set d key v k = elim (Option-cases (set_value d.visible key v)) [
    | inl absent ↦
        rw (absent, set)
          (rw (visible-add_value d key v, get_value-append d.visible _ k)
            (get_added (get_value d.visible k) key k v (λ same.
              rw (← (equal_iff key k).0 same) (get_value-set_value-none d.visible key v absent))))
    | inr (r, found) ↦ rw (found, set) (get_value-set_value d.visible key v k found)
  ]
