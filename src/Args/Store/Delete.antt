-- ===== src/Args/Store/Delete.antt =====
-- `delAllArgs` removes every slot of a key.
use justhttp.Base.{
  ◌+◌, ◌≡◌, sym, none, List, [], ◌∷◌, ◌++◌, append-nil, append_assoc, arith, if◌then◌else◌, length,
  length-append, Bytes, equal, equal_iff, equal_symm,
}
use justhttp.Args.Slots.{ArgsKv, Slots}
use justhttp.Args.Store.{del_loop, del_all_args, peek_arg}

-- The slots of the other keys, in order.
abbrev pub without : Bytes → List ArgsKv → List ArgsKv
without key [] = []
without key (kv ∷ kvs) = if equal kv.key key then without key kvs else kv ∷ without key kvs

visible-del_loop :
    (key : Bytes) (kvs before spare : List ArgsKv)
    → (del_loop key before kvs spare).visible ≡ before ++ without key kvs
unfolding del_loop
visible-del_loop key [] before spare = sym (append-nil before)
visible-del_loop key (kv ∷ kvs) before spare = ground (
  arith,
  visible-del_loop key kvs before (kv ∷ spare),
  visible-del_loop key kvs (before ++ kv ∷ []) spare,
  append_assoc before (kv ∷ []) (without key kvs),
  equal_symm key kv.key,
)

length-del_loop :
    (key : Bytes) (kvs before spare : List ArgsKv)
    → length (del_loop key before kvs spare).visible + length (del_loop key before kvs spare).spare
      ≡ length before + length kvs + length spare
unfolding del_loop
length-del_loop key [] before spare = omega arith
length-del_loop key (kv ∷ kvs) before spare = ground (
  arith,
  length-del_loop key kvs before (kv ∷ spare),
  length-del_loop key kvs (before ++ kv ∷ []) spare,
  length-append before (kv ∷ []),
)

peek_arg-without :
    (key : Bytes) (kvs : List ArgsKv) (k : Bytes)
    → peek_arg (without key kvs) k ≡ (if equal key k then none else peek_arg kvs k)
unfolding peek_arg
peek_arg-without key [] k = ground arith
peek_arg-without key (kv ∷ kvs) k =
    ground
      (arith, peek_arg-without key kvs k, equal_iff kv.key key, equal_iff kv.key k, equal_iff key k)

-- The loop that shifts the slots in place leaves the slots of the other keys in order, and loses
-- none: a deleted one is a spare one.
pub del_all_args_lem :
    (h : Slots) (key : Bytes)
    → ((del_all_args h key).visible ≡ without key h.visible)
      × (length (del_all_args h key).visible + length (del_all_args h key).spare
          ≡ length h.visible + length h.spare)
unfolding del_all_args
del_all_args_lem h key = (
  visible-del_loop key h.visible [] h.spare,
  omega (arith, length-del_loop key h.visible [] h.spare),
)

-- After `Del` the key gives nothing, however often it was there, and every other key gives what it
-- gave before.
pub peek_arg-del_all_args :
    (h : Slots) (key k : Bytes)
    → peek_arg (del_all_args h key).visible k ≡ (if equal key k then none else peek_arg h.visible k)
peek_arg-del_all_args h key k = rw ((del_all_args_lem h key).0) (peek_arg-without key h.visible k)
