-- ===== src/Uri/Path/Steps.antt =====
-- A round of a loop of `normalizePath` joins what stands before a slash to another slash.
use justhttp.Base.{
  ℕ, ◌+◌, ◌≤◌, ◌<◌, ◌≡◌, refl, sym, ap, ◌∙◌, inl, inr, none, some, [], ◌∷◌, ◌++◌, append_assoc,
  arith, Option-cases, length, take, drop, length-append, Bytes, codes, take-length-append,
}
use justhttp.Base.Search.{index, last_index_byte}
use justhttp.Base.Search.Found.{Free, Free-append, Place, index-Place}
use justhttp.Uri.Path.{parent}
use justhttp.Uri.Path.Slashes.{
  StartsSlash, StartsSlash-join, Free-join2, Free-join3, last_index_byte-some, drop-add,
  drop-length,
}

-- `out` is the text up to a slash of `b`, and the text from a later slash on.
pub record Joined (b out : Bytes) : Type 0 where
  pub front : Bytes
  pub cut : Bytes
  pub until : Bytes
  pub rest : Bytes
  pub from_front : b ≡ front ++ b'/' ∷ cut
  pub from_rest : b ≡ until ++ b'/' ∷ rest
  pub joins : out ≡ front ++ b'/' ∷ rest

pub StartsSlash-Joined : {b out : Bytes} → Joined b out → StartsSlash b → StartsSlash out
StartsSlash-Joined j h = rw j.joins (StartsSlash-join j.front j.cut j.rest (rw j.from_front at h))

pub Free-Joined2 : {b out : Bytes} → Joined b out → Free (codes "//") b → Free (codes "//") out
Free-Joined2 j h = rw j.joins (
    Free-join2 j.front j.cut j.rest (rw j.from_front at h)
      (Free-append (codes "//") j.until (b'/' ∷ j.rest) (rw j.from_rest at h)))

pub Free-Joined3 : {b out : Bytes} → Joined b out → Free (codes "/./") b → Free (codes "/./") out
Free-Joined3 j h = rw j.joins (
    Free-join3 j.front j.cut j.rest (rw j.from_front at h)
      (Free-append (codes "/./") j.until (b'/' ∷ j.rest) (rw j.from_rest at h)))

-- The text on both sides of a place.
take_before : (pat s : Bytes) (n : ℕ) (p : Place pat s n) → take n s ≡ p.before
take_before pat s n p = rw (p.splits, ← p.size) (take-length-append p.before _)

drop_before :
    (pat s : Bytes) (n k : ℕ) (p : Place pat s n) → drop (n + k) s ≡ drop k (pat ++ p.after)
drop_before pat s n k p =
    drop-add n k s ∙ rw (p.splits, ← p.size) (rw (drop-length p.before (pat ++ p.after)))

-- The round that removes "/./".
pub Joined-dot :
    (b : Bytes) (n : ℕ)
    → index (codes "/./") b ≡ some n
    → Joined b (take n b ++ drop (n + 2) b) × (length (take n b ++ drop (n + 2) b) < length b)
Joined-dot b n found =
    let p = index-Place (codes "/./") b n found in
    let e : take n b ++ drop (n + 2) b ≡ p.before ++ b'/' ∷ p.after =
      rw (take_before (codes "/./") b n p, drop_before (codes "/./") b n 2 p) refl in
    (
      record {
        front = p.before;
        cut = b'.' ∷ b'/' ∷ p.after;
        until = p.before ++ codes "/.";
        rest = p.after;
        from_front = p.splits;
        from_rest = p.splits ∙ sym (append_assoc p.before (codes "/.") (b'/' ∷ p.after));
        joins = e;
      },
      omega (
        arith,
        ap length e,
        ap length p.splits,
        length-append p.before (b'/' ∷ p.after),
        length-append p.before (codes "/./" ++ p.after),
      ),
    )

parent-none : (q : Bytes) → last_index_byte q b'/' ≡ none → parent q ≡ 0
unfolding parent
parent-none q h = rw (parent, h) refl

parent-some : (q : Bytes) (nn : ℕ) → last_index_byte q b'/' ≡ some nn → parent q ≡ nn
unfolding parent
parent-some q nn h = rw (parent, h) refl

-- What is kept before a "/../".
parent_front :
    (q r : Bytes)
    → StartsSlash (q ++ (codes "/../" ++ r))
    → (front : Bytes) × (cut : Bytes) × (q ++ (codes "/../" ++ r) ≡ front ++ b'/' ∷ cut)
      × (take (parent q) (q ++ (codes "/../" ++ r)) ≡ front)
      × (length front ≤ length q)
parent_front q r (x, starts) = elim (Option-cases (last_index_byte q b'/')) [
  | inl nowhere ↦ ([], x, starts, rw (parent-none q nowhere) refl, omega arith)
  | inr (nn, found) ↦
      let (front, cut, e, size) = last_index_byte-some q b'/' nn found in
      (
        front,
        cut ++ (codes "/../" ++ r),
        rw e (append_assoc front (b'/' ∷ cut) (codes "/../" ++ r)),
        rw (parent-some q nn found, e, ← size)
            (rw (append_assoc front (b'/' ∷ cut) (codes "/../" ++ r)) (take-length-append front _)),
        rw e (omega (arith, length-append front (b'/' ∷ cut))),
      )
]

-- The round that removes "/../".
pub Joined-dot_dot :
    (b : Bytes) (n : ℕ)
    → StartsSlash b
    → index (codes "/../") b ≡ some n
    → Joined b (take (parent (take n b)) b ++ drop (n + 3) b)
      × (length (take (parent (take n b)) b ++ drop (n + 3) b) < length b)
Joined-dot_dot b n starts found =
    let p = index-Place (codes "/../") b n found in
    let (front, cut, splits, kept, short) = parent_front p.before p.after (rw p.splits at starts) in
    let e : take (parent (take n b)) b ++ drop (n + 3) b ≡ front ++ b'/' ∷ p.after =
      rw (take_before (codes "/../") b n p, drop_before (codes "/../") b n 3 p)
        (ap (λ t. t ++ b'/' ∷ p.after) (ap (take (parent p.before)) p.splits ∙ kept)) in
    (
      record {
        front = front;
        cut = cut;
        until = p.before ++ codes "/..";
        rest = p.after;
        from_front = p.splits ∙ splits;
        from_rest = p.splits ∙ sym (append_assoc p.before (codes "/..") (b'/' ∷ p.after));
        joins = e;
      },
      omega (
        arith,
        short,
        ap length e,
        ap length p.splits,
        length-append front (b'/' ∷ p.after),
        length-append p.before (codes "/../" ++ p.after),
      ),
    )

-- The round that removes a slash of "//".
pub split_slashes :
    (b : Bytes) (n : ℕ)
    → index (codes "//") b ≡ some n
    → (rest : Bytes) × (b ≡ take n b ++ b'/' ∷ b'/' ∷ rest) × (drop (n + 1) b ≡ b'/' ∷ rest)
split_slashes b n found =
    let p = index-Place (codes "//") b n found in
    (
      p.after,
      p.splits ∙ sym (ap (λ t. t ++ (codes "//" ++ p.after)) (take_before (codes "//") b n p)),
      drop_before (codes "//") b n 1 p,
    )
