-- ===== src/Redis/PubSub/Losing.antt =====
-- redis/pubsub.go: a channel that is full, and a client that is closed.
use go_toolkits.Base.{
  ◌≡◌, refl, ap, true, false, List, [], ◌∷◌, ◌++◌, arith, ltb-true, ltb-false, length,
}
use go_toolkits.Redis.PubSub.{
  Message, capacity, Client, receiving, takes_out, take_out, receive_message, end_pushing, close,
  receives, ends, closes, act, step, run,
}

module _ {F : Type 0} where
  -- Of two messages that come while the channel is full and open, and is not emptied by pushMessages in
  -- between, the first is lost, and with it the
  -- oldest that waits; the second takes the last place.
  pub run_twice_full :
      (x y m : Message) (ms : List Message) (c : Client F)
      → c.panicked ≡ false
      → c.ch_closed ≡ false
      → c.ch ≡ m ∷ ms
      → length c.ch ≡ capacity
      → c.receiver ≡ receiving
      → (run (receives x ∷ takes_out ∷ receives y ∷ []) c).ch ≡ ms ++ y ∷ []
  unfolding run step act receive_message take_out
  run_twice_full x y m ms c p o e n r =
      rw
        (
          p,
          r,
          o,
          ltb-false (length c.ch) capacity (omega (arith, n)),
          e,
          ltb-true (length ms) capacity (omega (arith, n, ap length e)),
        )
        refl

  -- A message that comes after Close, once pushMessages has seen it, makes receiveMessages panic.
  pub run_closed :
      (x : Message) (c : Client F)
      → c.panicked ≡ false
      → c.done_closed ≡ false
      → c.pushing ≡ true
      → c.receiver ≡ receiving
      → (run (closes ∷ ends ∷ receives x ∷ []) c).panicked ≡ true
  unfolding run step act receive_message close end_pushing
  run_closed x c p d g r = rw (p, d, g, r) refl
