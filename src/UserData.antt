-- ===== src/UserData.antt =====
-- The values that a RequestCtx stores under keys, userdata.go. A slot that is not in use keeps its
-- old key and value, and is written over when it is used again.
pub mod Laws
use justhttp.Base.{ℕ, Bool, Option, none, some, List, [], ◌∷◌, ◌++◌, if◌then◌else◌, Bytes, equal}

module _ (Value : Type 0) where
  -- `userDataKV`.
  pub record UserDataKv : Type 0 where
    pub key : Bytes
    pub value : Value

  -- `args[:len(args)]`, and the slots behind it up to the capacity.
  pub record UserData : Type 0 where
    pub visible : List UserDataKv
    pub spare : List UserDataKv

module _ {Value : Type 0} where
  -- The loop of `Set`; `none` if no key fits.
  unfoldable pub set_value :
      List (UserDataKv Value) → Bytes → Value → Option (List (UserDataKv Value))
  set_value [] key value = none
  set_value (kv ∷ kvs) key value =
      let later : Option (List (UserDataKv Value)) = elim (set_value kvs key value) [
        | none ↦ none
        | some kvs' ↦ some (kv ∷ kvs')
      ] in
      if equal kv.key key then some (record kv { value = value } ∷ kvs) else later

  -- What `Set` does where no key fits: the first spare slot is used, or a new one is appended.
  unfoldable pub add_value : UserData Value → Bytes → Value → UserData Value
  add_value d key value = elim d.spare [
    | [] ↦ record d { visible = d.visible ++ (record { key = key; value = value }) ∷ [] }
    | kv ∷ spare ↦ record {
      visible = d.visible ++ (record { key = key; value = value }) ∷ [];
      spare = spare;
    }
  ]

  -- `Set`.
  unfoldable pub set : UserData Value → Bytes → Value → UserData Value
  unfolding set_value add_value
  set d key value = elim (set_value d.visible key value) [
    | none ↦ add_value d key value
    | some kvs ↦ record d { visible = kvs }
  ]

  unfoldable pub get_value : List (UserDataKv Value) → Bytes → Option Value
  get_value [] key = none
  get_value (kv ∷ kvs) key = if equal kv.key key then some kv.value else get_value kvs key

  -- `Get`; `none` is nil.
  unfoldable pub get : UserData Value → Bytes → Option Value
  unfolding get_value
  get d key = get_value d.visible key

  -- The values that `Reset` closes, in order: those that are an `io.Closer`.
  unfoldable pub closed : (Value → Bool) → List (UserDataKv Value) → List Value
  closed is_closer [] = []
  closed is_closer (kv ∷ kvs) =
      if is_closer kv.value then kv.value ∷ closed is_closer kvs else closed is_closer kvs

  -- `Reset`, with the values that it closes.
  unfoldable pub reset : (Value → Bool) → UserData Value → UserData Value × List Value
  unfolding closed
  reset is_closer d =
      (record { visible = []; spare = d.visible ++ d.spare }, closed is_closer d.visible)
