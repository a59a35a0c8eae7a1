-- ===== src/Collector/Refine.antt =====
-- collector: that the queue keeps what its history promises.
use go_toolkits.Base.{
  ℕ, suc, subst, ◌-◌, ◌≡◌, refl, sym, ◌∙◌, ap, Bool, true, false, Option, none, some, List, [], ◌∷◌,
  ◌++◌, append_assoc, arith, ltb, if◌then◌else◌, by_if, length, take, drop, length-append,
  take-append, drop-append,
}
use go_toolkits.Base.Bytes.{Bytes}
use go_toolkits.Collector.{
  Endpoint, Config, Failure, queue_full, not_published, Collector, new_collector, apply_options,
  default_config, push, report, collect, stop, quit, publish, receive, take_next,
}
use go_toolkits.Collector.History.{
  Event, pushes, ticks, takes, quits, stops, History, empty_history, offer, advance, promised,
  promise,
}

both_if :
    {A B : Type 0} (P : A → B → Type 0) (b : Bool) {x y : A} {u v : B}
    → (b ≡ true → P x u)
    → (b ≡ false → P y v)
    → P (if b then x else y) (if b then u else v)
both_if P true hx hy = hx refl
both_if P false hx hy = hy refl

module _ {M E : Type 0} (broker : Bytes → M → Option E) where
  abbrev pub step : Event M → Collector M E → Collector M E × List Bool
  step (pushes m) c = let (c', ok) = push m c in (c', ok ∷ [])
  step (ticks ep) c = let (c', ok) = collect ep c in (c', ok ∷ [])
  step takes c = (take_next broker c, [])
  step quits c = (quit c, [])
  step stops c = (stop c, [])

module _ {M : Type 0} where
  -- The messages that were handed to the broker.
  abbrev pub messages : List (Bytes × M) → List M
  messages [] = []
  messages ((topic, m) ∷ ps) = m ∷ messages ps

  messages-append :
      (ps : List (Bytes × M)) (topic : Bytes) (m : M)
      → messages (ps ++ (topic, m) ∷ []) ≡ messages ps ++ m ∷ []
  messages-append [] topic m = refl
  messages-append ((t, n) ∷ ps) topic m = ap (λ ns. n ∷ ns) (messages-append ps topic m)

module _ {M E : Type 0} where
  -- The collector stands for the history: what was published is gone, what is queued waits.
  pub record Refines (capacity : ℕ) (c : Collector M E) (h : History M) : Type 0 where
    sent : messages c.published ++ c.queue ≡ h.accepted
    count : length (messages c.published) ≡ h.gone
    closed : c.quit_closed ≡ h.stopping
    runs : c.running ≡ h.going
    linked : c.cfg.has_broker ≡ true
    size : c.cfg.queue_size ≡ capacity

  -- The same collector but for what was reported stands for the same.
  report-Refines :
      (capacity : ℕ) (e : Failure E) (c : Collector M E) (h : History M)
      → Refines capacity c h
      → Refines capacity (report e c) h
  unfolding report
  report-Refines capacity e c h s =
      by_if (λ (d : Collector M E). Refines capacity d h) c.cfg.has_error_func
        (λ _. record {
          sent = s.sent;
          count = s.count;
          closed = s.closed;
          runs = s.runs;
          linked = s.linked;
          size = s.size;
        })
        (λ _. s)

  abbrev Agree : ℕ → Collector M E × Bool → History M × Bool → Type 0
  Agree capacity p q = Refines capacity p.0 q.0 × (p.1 ≡ q.1)

  same_test :
      (capacity : ℕ) (c : Collector M E) (h : History M)
      → Refines capacity c h
      → ltb (length c.queue) c.cfg.queue_size ≡ ltb (length h.accepted - h.gone) capacity
  same_test capacity c h s =
      ground
        (arith, ap length s.sent, length-append (messages c.published) c.queue, s.count, s.size)

  push-Agree :
      (capacity : ℕ) (m : M) (c : Collector M E) (h : History M)
      → Refines capacity c h
      → Agree capacity (push m c) (offer capacity m h)
  unfolding push
  push-Agree capacity m c h s =
      subst
        (λ b.
          Agree capacity (push m c)
            (if b then (record h { accepted = h.accepted ++ m ∷ [] }, true) else (h, false)))
        (same_test capacity c h s)
        (both_if (Agree capacity) (ltb (length c.queue) c.cfg.queue_size)
          (λ _. (
            record {
              sent =
                  sym (append_assoc (messages c.published) c.queue (m ∷ []))
                  ∙ ap (λ ms. ms ++ m ∷ []) s.sent;
              count = s.count;
              closed = s.closed;
              runs = s.runs;
              linked = s.linked;
              size = s.size;
            },
            refl,
          ))
          (λ _. (s, refl)))

  collect-Agree :
      (capacity : ℕ) (ep : Endpoint M) (c : Collector M E) (h : History M)
      → Refines capacity c h
      → Agree capacity (collect ep c) (offer capacity ep.f h)
  unfolding collect
  collect-Agree capacity ep c h s =
      let (s', e) = push-Agree capacity ep.f c h s in
      by_if (λ (p : Collector M E × Bool). Agree capacity p (offer capacity ep.f h)) (push ep.f c).1
        (λ t. (s', sym t ∙ e)) (λ t. (report-Refines capacity queue_full _ _ s', sym t ∙ e))

  answer-Refines :
      (capacity : ℕ) (o : Option E) (c : Collector M E) (h : History M)
      → Refines capacity c h
      → Refines capacity (elim o [ none ↦ c | some e ↦ report (not_published e) c ]) h
  answer-Refines capacity none c h s = s
  answer-Refines capacity (some e) c h s = report-Refines capacity (not_published e) c h s

  receive-Refines :
      (capacity : ℕ) (broker : Bytes → M → Option E) (q : List M) (c : Collector M E)
      (h : History M)
      → c.queue ≡ q
      → Refines capacity c h
      → Refines capacity
          (receive broker q c)
          (if ltb h.gone (length h.accepted) then record h { gone = suc h.gone } else h)
  unfolding receive publish
  receive-Refines capacity broker [] c h e s =
      subst (λ b. Refines capacity c (if b then record h { gone = suc h.gone } else h)) {x = false}
        (ground (
          arith,
          ap length s.sent,
          length-append (messages c.published) c.queue,
          s.count,
          ap length e,
        ))
        s
  receive-Refines capacity broker (m ∷ ms) c h e s =
      subst
        (λ b.
          Refines capacity (receive broker (m ∷ ms) c)
            (if b then record h { gone = suc h.gone } else h))
        {x = true}
        (ground (
          arith,
          ap length s.sent,
          length-append (messages c.published) c.queue,
          s.count,
          ap length e,
        ))
        (by_if (λ (d : Collector M E). Refines capacity d (record h { gone = suc h.gone }))
          c.cfg.has_broker
          (λ _. answer-Refines capacity (broker c.cfg.topic m) _ _ (record {
            sent =
                ap (λ ns. ns ++ ms) grown
                ∙ append_assoc (messages c.published) (m ∷ []) ms
                ∙ ap (λ q. messages c.published ++ q) (sym e)
                ∙ s.sent;
            count =
                omega
                  (arith, ap length grown, length-append (messages c.published) (m ∷ []), s.count);
            closed = s.closed;
            runs = s.runs;
            linked = s.linked;
            size = s.size;
          }))
          (λ f. absurd (ground (arith, s.linked))))
    where
      grown : messages (c.published ++ (c.cfg.topic, m) ∷ []) ≡ messages c.published ++ m ∷ []
      grown = messages-append c.published c.cfg.topic m

  take_next-Refines :
      (capacity : ℕ) (broker : Bytes → M → Option E) (c : Collector M E) (h : History M)
      → Refines capacity c h
      → Refines capacity (take_next broker c) (advance h)
  unfolding take_next
  take_next-Refines capacity broker c h s =
      subst
        (λ b. Refines capacity (take_next broker c) (
          if b
          then (if ltb h.gone (length h.accepted) then record h { gone = suc h.gone } else h)
          else h))
        s.runs
        (both_if (Refines capacity) c.running
          (λ _. receive-Refines capacity broker c.queue c h refl s) (λ _. s))

  quit-Refines :
      (capacity : ℕ) (c : Collector M E) (h : History M)
      → Refines capacity c h
      → Refines capacity (quit c) (if h.stopping then record h { going = false } else h)
  unfolding quit
  quit-Refines capacity c h s =
      subst (λ b. Refines capacity (quit c) (if b then record h { going = false } else h)) s.closed
        (both_if (Refines capacity) c.quit_closed
          (λ _. record {
            sent = s.sent;
            count = s.count;
            closed = s.closed;
            runs = refl;
            linked = s.linked;
            size = s.size;
          })
          (λ _. s))

  stop-Refines :
      (capacity : ℕ) (c : Collector M E) (h : History M)
      → Refines capacity c h
      → Refines capacity (stop c) (record h { stopping = true })
  unfolding stop
  stop-Refines capacity c h s = record {
    sent = s.sent;
    count = s.count;
    closed = refl;
    runs = s.runs;
    linked = s.linked;
    size = s.size;
  }

  -- Runs of both, with the answers to the calls in their order.
  abbrev pub run :
      (Bytes → M → Option E) → List (Event M) → Collector M E → Collector M E × List Bool
  run broker [] c = (c, [])
  run broker (e ∷ es) c =
      let (c', bs) = step broker e c in let (d, cs) = run broker es c' in (d, bs ++ cs)

  abbrev Match : ℕ → Collector M E × List Bool → History M × List Bool → Type 0
  Match capacity p q = Refines capacity p.0 q.0 × (p.1 ≡ q.1)

  step-Match :
      (capacity : ℕ) (broker : Bytes → M → Option E) (e : Event M) (c : Collector M E)
      (h : History M)
      → Refines capacity c h
      → Match capacity (step broker e c) (promised capacity e h)
  step-Match capacity broker (pushes m) c h s =
      let (s', e) = push-Agree capacity m c h s in (s', ap (λ b. b ∷ []) e)
  step-Match capacity broker (ticks ep) c h s =
      let (s', e) = collect-Agree capacity ep c h s in (s', ap (λ b. b ∷ []) e)
  step-Match capacity broker takes c h s = (take_next-Refines capacity broker c h s, refl)
  step-Match capacity broker quits c h s = (quit-Refines capacity c h s, refl)
  step-Match capacity broker stops c h s = (stop-Refines capacity c h s, refl)

  run-Match :
      (capacity : ℕ) (broker : Bytes → M → Option E) (es : List (Event M)) (c : Collector M E)
      (h : History M)
      → Refines capacity c h
      → Match capacity (run broker es c) (promise capacity es h)
  run-Match capacity broker [] c h s = (s, refl)
  run-Match capacity broker (e ∷ es) c h s =
      let (s', e1) = step-Match capacity broker e c h s in
      let (s2, e2) =
        run-Match capacity broker es (step broker e c).0 (promised capacity e h).0 s' in
      (
        s2,
        ap (λ bs. bs ++ (run broker es (step broker e c).0).1) e1
            ∙ ap (λ cs. (promised capacity e h).1 ++ cs) e2,
      )

  Refines-parts :
      (capacity : ℕ) (c : Collector M E) (h : History M)
      → Refines capacity c h
      → (messages c.published ≡ take h.gone h.accepted) × (c.queue ≡ drop h.gone h.accepted)
  Refines-parts capacity c h s =
      let ms : List M = messages c.published in
      (
        sym (take-append ms c.queue)
            ∙ ap (λ n. take n (ms ++ c.queue)) s.count
            ∙ ap (take h.gone) s.sent,
        sym (drop-append ms c.queue 0 h.gone (omega (arith, s.count))) ∙ ap (drop h.gone) s.sent,
      )

  -- Whatever options a collector with a broker is made with, over any calls of Push, Stop and the
  -- tickers and any rounds of run, every call is answered as the history of its queue size says, the
  -- messages that went to the broker are those that are gone, in the order in which they were
  -- accepted, whether the broker takes them or not, and those that wait are the others.
  pub run-promise :
      (broker : Bytes → M → Option E) (opts : List (Config M → Config M)) (es : List (Event M))
      → (apply_options opts default_config).has_broker ≡ true
      → let n = (apply_options opts default_config).queue_size in
        let (c, answers) = run broker es (new_collector opts) in
        let (h, promises) = promise n es empty_history in
        (answers ≡ promises)
        × (messages c.published ≡ take h.gone h.accepted)
        × (c.queue ≡ drop h.gone h.accepted)
  unfolding new_collector
  run-promise broker opts es l =
      let (s, e) =
        run-Match (apply_options opts default_config).queue_size broker es (new_collector opts)
          empty_history
          (record {
            sent = refl;
            count = refl;
            closed = refl;
            runs = refl;
            linked = l;
            size = refl;
          }) in
      let (sent, waiting) = Refines-parts _ _ _ s in (e, sent, waiting)
