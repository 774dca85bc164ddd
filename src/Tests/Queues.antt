-- ===== src/Tests/Queues.antt =====
-- The bounded queue.
use rust_trader.Base.{ℕ, ◌≡◌, refl, arith, false, List, [], ◌∷◌}
use rust_trader.Queue.{Channel, channel_with_flag, send, try_send}
use rust_trader.Queue.Delivery.{Event, sends, receives, Delivers, step, run, run-Delivers}

-- A queue of one place: the second value is refused, and so is all that follows.
abbrev events : List (Event ℕ)
events = sends 1 ∷ sends 2 ∷ receives ∷ sends 3 ∷ []

abbrev single : Channel ℕ
unfolding channel_with_flag
single = channel_with_flag 1 false

overflow : (run single events).1 ≡ 1 ∷ []
unfolding run step send try_send channel_with_flag
overflow = refl

run-Delivers_example : Delivers single events
run-Delivers_example = run-Delivers single events (unfold channel_with_flag in omega arith)
