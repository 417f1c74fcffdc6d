-- ===== src/Thread/Tests.antt =====
-- Runs of the lock: the last of two equal tickets is taken back, and only the first ticket gets the lock.
use fix4_2_protocol.Base.{ℕ, ◌==◌, ◌≡◌, refl, true, false, none, [], ◌∷◌}
use fix4_2_protocol.Thread.QueueMutex.{QueueMutex, finish, lock}

abbrev four_tickets : QueueMutex ℕ
four_tickets = record { queue = 1 ∷ 2 ∷ 1 ∷ 3 ∷ []; locked = false }

finish_last_of_two :
    finish ◌==◌ four_tickets 1 ≡ (record { queue = 1 ∷ 2 ∷ 3 ∷ []; locked = false }, true)
unfolding finish
finish_last_of_two = refl

second_waits : lock ◌==◌ four_tickets 2 ≡ none
unfolding lock
second_waits = refl
