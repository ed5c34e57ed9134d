-- ===== src/Tests/Pipes.antt =====
-- In-memory connections: fasthttputil/pipeconns.go.
use justhttp.Base.{◌≡◌, refl, false, none, [], ◌∷◌, ◌++◌, codes}
use justhttp.Pipe.{Half, new_half, eof, waits, read}
use justhttp.Pipe.Round.{pending, IsRead}
use justhttp.Pipe.Order.{
  Traffic, sends, receives, Reach, opened, sending, receiving, Reach-ordered, read-IsRead,
}

abbrev two_written : Half
two_written = record { ch = codes "abc" ∷ codes "de" ∷ []; bb = [] }

read_run :
    read eof 4 two_written
    ≡ record { half = record { ch = []; bb = codes "e" }; out = codes "abcd"; failure = none }
unfolding read
read_run = refl

read-IsRead_example : IsRead eof 4 two_written (read eof 4 two_written)
read-IsRead_example = read-IsRead eof 4 two_written

abbrev some_traffic : Traffic
some_traffic =
    receives waits
      (sends waits false
        (sends waits false (record { half = new_half; sent = []; received = [] }) (codes "abc"))
        (codes "de"))
      4

some_traffic-Reach : Reach some_traffic
some_traffic-Reach =
    receiving waits 4 (sending waits false (codes "de") (sending waits false (codes "abc") opened))

Reach-ordered_example : some_traffic.received ++ pending some_traffic.half ≡ some_traffic.sent
Reach-ordered_example = Reach-ordered some_traffic-Reach
