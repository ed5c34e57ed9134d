-- ===== src/Tests/Clients.antt =====
-- The client of all hosts: client.go.
use justhttp.Base.{
  ℕ, zero, suc, ◌≡◌, refl, true, false, none, some, List, [], ◌∷◌, ◌++◌, arith, Bytes, codes,
}
use justhttp.Client.Deadline.{
  Call, Returned, answer, no_answer, new_call, finish, expire, Step, finishing, receiving, expiring,
  Reach, IsOver, Reach-IsOver,
}
use justhttp.Client.Deadline
use justhttp.Client.Hosts
use justhttp.Client.Hosts.{
  Host, Client, client_do, add_missing_port, new_client, with_hosts, hosts_of, host_client,
  is_tls_of, find_host, new_host,
}
use justhttp.Client.Hosts.Cleaned.{IsCleaned, Reach-IsCleaned}
use justhttp.Client.Dial.{split_comma, dial_host_hard, known, TriesAll, dial_host_hard-TriesAll}
use justhttp.Client.Redirects.{Round, responded, do_request_follow_redirects}
use justhttp.Client.Redirects.Bounds.{FollowedBy, do_request_follow_redirects-FollowedBy}

-- A call whose timer comes first.
abbrev late_call : Call
late_call = record new_call { timedout = true; returned = some no_answer }

late_call-Reach : Reach late_call
unfolding expire
late_call-Reach = Deadline.after Deadline.start (expiring refl refl)

Reach-IsOver_example :
    ((e : ℕ) → late_call.finished ≡ none → (d : Call) × (finish late_call e ≡ some d))
    × (late_call.returned ≡ none → (d : Call) × (expire late_call ≡ some d))
    × ((r : Returned) → late_call.returned ≡ some r → IsOver late_call r)
Reach-IsOver_example = Reach-IsOver late_call-Reach

-- A join without the brackets of an IPv6 address.
abbrev join_host_port : Bytes → Bytes → Bytes
join_host_port host port = host ++ b':' ∷ port

abbrev one_host : Client
one_host =
    with_hosts new_client true (host_client join_host_port new_client.ms (codes "a.org") true).0

one_host-Reach : Hosts.Reach join_host_port one_host
unfolding client_do
one_host-Reach = Hosts.after Hosts.start (
    Hosts.doing (codes "https") (codes "a.org")
      (host_client join_host_port new_client.ms (codes "a.org") true).1 refl)

Reach-IsCleaned_example :
    IsCleaned join_host_port true one_host.ms × IsCleaned join_host_port false one_host.m
Reach-IsCleaned_example = Reach-IsCleaned join_host_port one_host-Reach

-- Every request is redirected to "/b".
abbrev always_b : ℕ → Bytes → Round
always_b i url = responded 302 (codes "/b")

do_request_follow_redirects-FollowedBy_example :
    FollowedBy always_b 2 0
      (codes "http://a/")
      (do_request_follow_redirects always_b (codes "http://a/") 2)
do_request_follow_redirects-FollowedBy_example =
    do_request_follow_redirects-FollowedBy always_b (codes "http://a/") 2

-- One redirect, and then an answer.
abbrev once_b : ℕ → Bytes → Round
once_b zero url = responded 302 (codes "http://a/b")
once_b (suc i) url = responded 200 []

abbrev two_addrs : List Bytes
two_addrs = codes "a:80" ∷ codes "b:80" ∷ []

dial_host_hard-TriesAll_example :
    TriesAll two_addrs 3 2
      (dial_host_hard (λ i addr. false) (λ i. false) (known (codes "a:80,b:80") two_addrs 3))
dial_host_hard-TriesAll_example =
    dial_host_hard-TriesAll (λ i addr. false) (λ i. false) (codes "a:80,b:80") two_addrs 3
      (λ i addr. refl) (λ i. refl) (omega arith) (omega arith)

two_addrs_split : split_comma (codes "a:80,b:80") ≡ two_addrs
unfolding split_comma
two_addrs_split = refl
