-- ===== src/Recovery/Polls.antt =====
-- pkg/wait/wait.go: polling until a function succeeds or the context is done.
use suture_port_mariadb_oper.Prelude.{ℕ, zero, suc, Bool, true, false, Option, none, some, ℤ, err}
use suture_port_mariadb_oper.Steps.{◌>>=◌, again, run_if, gets}
use suture_port_mariadb_oper.Recovery.{
  Cluster, Action, Error, not_found, failed, tick, record_event,
}

-- `fn` with the tries that are left: the wait between two of them is a tick.
unfoldable pub poll_rounds : ℕ → Action (Unit {0}) → Action (Unit {0})
unfolding again
poll_rounds zero fn s = (err failed, s)
poll_rounds (suc left) fn s =
    again (fn s).0 (λ s'. poll_rounds left fn (record_event s' tick)) (fn s).1

-- `PollUntilSuccessOrContextCancel`, in a context with that timeout. The first try is at once.
unfoldable pub poll_until_success : Cluster → ℤ → Action (Unit {0}) → Action (Unit {0})
unfolding poll_rounds
poll_until_success k ctx fn s = poll_rounds (suc (k.rounds s.log ctx)) fn s

-- `shouldPoll`: the answer to the request for the MariaDB.
unfoldable pub should_poll : Option Error → Bool
should_poll none = true
should_poll (some not_found) = false
should_poll (some failed) = true

-- The function that is polled: when the MariaDB is gone, it succeeds.
unfoldable pub guarded : Cluster → Action (Unit {0}) → Action (Unit {0})
unfolding ◌>>=◌ gets run_if should_poll
guarded k fn = gets (λ s. should_poll (k.get_mariadb s.log)) >>= λ b. run_if b fn

-- `PollWithMariaDB`.
unfoldable pub poll_with_mariadb : Cluster → ℤ → Action (Unit {0}) → Action (Unit {0})
unfolding poll_until_success guarded
poll_with_mariadb k ctx fn = poll_until_success k ctx (guarded k fn)
