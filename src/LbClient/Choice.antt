-- ===== src/LbClient/Choice.antt =====
-- `get` chooses a least loaded client.
use justhttp.Base.{
  ℕ, ◌+◌, ◌≤◌, ◌<◌, ◌≡◌, refl, sym, ◌∙◌, ◌≢◌, ◌⊎◌, inl, inr, true, false, some, List, [], ◌∷◌, ◌++◌,
  append-nil, append_assoc, arith, length, get_elem?, length-append, All, All-append,
}
use justhttp.LbClient.{LbState, pending_requests, is_better, get_loop, get}

-- `c` is no less loaded than the pair of numbers: more requests, or as many and no smaller a total.
abbrev pub NoBetter : ℕ → ℕ → LbState → Type 0
NoBetter n t c = (n < pending_requests c) ⊎ (n ≡ pending_requests c) × (t ≤ c.total)

-- The chosen client is there, and no client is less loaded.
abbrev pub IsLeast : List LbState → ℕ → Type 0
IsLeast cs i =
    (c : LbState) × (get_elem? cs i ≡ some c) × All (NoBetter (pending_requests c) c.total) cs

NoBetter-trans :
    (n t : ℕ) (b c : LbState)
    → NoBetter n t b
    → NoBetter (pending_requests b) b.total c
    → NoBetter n t c
NoBetter-trans n t b c h k = ground arith

NoBetter-All :
    (n t : ℕ) (b : LbState) (cs : List LbState)
    → NoBetter n t b
    → All (NoBetter (pending_requests b) b.total) cs
    → All (NoBetter n t) cs
NoBetter-All n t b [] h k = tt
NoBetter-All n t b (c ∷ cs) h (k, ks) = (NoBetter-trans n t b c h k, NoBetter-All n t b cs h ks)

NoBetter-split :
    (b c : LbState)
    → (is_better (pending_requests c) c.total (pending_requests b) b.total ≡ true)
        × NoBetter (pending_requests c) c.total b
      ⊎ (is_better (pending_requests c) c.total (pending_requests b) b.total ≡ false)
        × NoBetter (pending_requests b) b.total c
unfolding is_better
NoBetter-split b c = ground arith

get_elem?-append :
    (done : List LbState) (c : LbState) (cs : List LbState)
    → get_elem? (done ++ c ∷ cs) (length done) ≡ some c
get_elem?-append [] c cs = refl
get_elem?-append (d ∷ done) c cs = get_elem?-append done c cs

one_more :
    (done : List LbState) (c : LbState) (i : ℕ) → length done ≡ i → length (done ++ c ∷ []) ≡ i + 1
one_more done c i h = omega (arith, length-append done (c ∷ []))

-- The loop over `cs` behind `done`, of which `b` at `j` is a least loaded client.
get_loop-IsLeast :
    (cs done all : List LbState) (i j : ℕ) (b : LbState)
    → all ≡ done ++ cs
    → length done ≡ i
    → get_elem? all j ≡ some b
    → All (NoBetter (pending_requests b) b.total) done
    → IsLeast all (get_loop cs i j (pending_requests b) b.total)
unfolding get_loop
get_loop-IsLeast [] done all i j b ea ei e h = (b, e, rw (ea, append-nil done) h)
get_loop-IsLeast (c ∷ cs) done all i j b ea ei e h = elim (NoBetter-split b c) [
  | inl (better, le) ↦
      rw (better, get_loop)
        (get_loop-IsLeast cs (done ++ c ∷ []) all (i + 1) i c
          (ea ∙ sym (append_assoc done (c ∷ []) cs)) (one_more done c i ei)
          (rw (ea, ← ei) (get_elem?-append done c cs))
          (All-append (NoBetter (pending_requests c) c.total) done (c ∷ [])
            (NoBetter-All (pending_requests c) c.total b done le h) (inr (refl, omega arith), tt)))
  | inr (worse, le) ↦
      rw (worse, get_loop)
        (get_loop-IsLeast cs (done ++ c ∷ []) all (i + 1) j b
          (ea ∙ sym (append_assoc done (c ∷ []) cs)) (one_more done c i ei) e
          (All-append (NoBetter (pending_requests b) b.total) done (c ∷ []) h (le, tt)))
]

-- With at least one client, `get` finds a client such that no other has fewer requests, counting
-- penalties, nor as many requests and a smaller total.
pub get-IsLeast : (cs : List LbState) → cs ≢ [] → (i : ℕ) × (get cs ≡ some i) × IsLeast cs i
unfolding get
get-IsLeast [] h = absurd (h refl)
get-IsLeast (c ∷ cs) h = (
  get_loop cs 1 0 (pending_requests c) c.total,
  refl,
  get_loop-IsLeast cs (c ∷ []) (c ∷ cs) 1 0 c refl refl refl (inr (refl, omega arith), tt),
)
