-- ===== src/Outbox/Runs.antt =====
-- The queue on concrete mails, and its theorems at inputs that meet their conditions.
use ratnet.Prelude.{ℕ, ◌≡◌, refl, true, false, List, [], ◌∷◌, ◌++◌, arith, Bytes}
use ratnet.Api.{OutboxMsg}
use ratnet.Go.{returned, panicked}
use ratnet.Outbox.{msg_exists, flush, msgs_since, picked, total}
use ratnet.Outbox.Since.{eligible, messages, msgs_since_resumes}
use ratnet.Outbox.Limit.{msgs_since_panics}
use ratnet.Outbox.Polls.{polls, polls_drain}
use ratnet.Outbox.Flush.{seconds, flush_keeps_seconds}

abbrev mail : ℕ → OutboxMsg
mail t = record { channel = []; msg = t ∷ 7 ∷ []; time_stamp = t }

abbrev olds : List OutboxMsg
olds = mail 1 ∷ mail 2 ∷ mail 3 ∷ []

abbrev news : List OutboxMsg
news = mail 11 ∷ []

abbrev one_mail : Bytes
one_mail = 1 ∷ 7 ∷ []

-- The branch that finds the mail leaves the mutex locked.
exists_locked : msg_exists olds [] one_mail ≡ (true, true)
unfolding msg_exists
exists_locked = refl

absent_unlocked : msg_exists news [] one_mail ≡ (false, false)
unfolding msg_exists
absent_unlocked = refl

flush_keeps_old : flush 10 (olds ++ mail 10 ∷ news) ≡ mail 2 ∷ mail 10 ∷ news
unfolding flush
flush_keeps_old = refl

flush_keeps_seconds_example : flush 10 (olds ++ mail 10 ∷ news) ≡ seconds olds ++ mail 10 ∷ news
flush_keeps_seconds_example =
    flush_keeps_seconds 10 olds news (mail 10) (omega arith, (omega arith, (omega arith, tt)))
      (omega arith, (omega arith, tt))

two_sent : msgs_since olds 0 5 [] ≡ returned ((1 ∷ 7 ∷ []) ∷ (2 ∷ 7 ∷ []) ∷ [], 2)
unfolding msgs_since
two_sent = refl

too_big : msgs_since olds 0 1 [] ≡ panicked
unfolding msgs_since
too_big = refl

msgs_since_resumes_example :
    (sent : List OutboxMsg) × ((1 ∷ 7 ∷ []) ∷ (2 ∷ 7 ∷ []) ∷ [] ≡ messages sent)
    × (eligible 0 [] olds ≡ sent ++ eligible 2 [] olds)
msgs_since_resumes_example =
    msgs_since_resumes olds 0 5 2 [] ((1 ∷ 7 ∷ []) ∷ (2 ∷ 7 ∷ []) ∷ [])
      (omega arith, (omega arith, tt)) two_sent

msgs_since_panics_example : msgs_since olds 1 1 [] ≡ panicked
unfolding eligible ratnet.Outbox.picked
msgs_since_panics_example =
    msgs_since_panics olds (mail 3 ∷ []) 1 1 [] (mail 2) (omega arith) refl (omega arith)

polls_drain_example :
    (t : ℕ) × (polls olds 2 [] 3 0 ≡ returned (messages (eligible 0 [] olds), t))
    × (eligible t [] olds ≡ [])
unfolding picked
polls_drain_example =
    polls_drain olds 2 [] 3 0 (omega arith, (omega arith, tt)) (unfold eligible in omega arith)
      (unfold eligible in omega arith)

three_polls : polls olds 2 [] 3 0 ≡ returned (messages olds, 3)
unfolding polls msgs_since
three_polls = refl
