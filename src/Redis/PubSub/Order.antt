-- ===== src/Redis/PubSub/Order.antt =====
-- redis/pubsub.go: which messages are handed on, and how many may wait.
use go_toolkits.Base.{
  ◌≤◌, ◌≡◌, refl, sym, ◌∙◌, ap, Bool, true, false, ◌&&◌, Option, none, some, List, [], ◌∷◌, ◌++◌,
  append_assoc, append-nil, arith, ltb, by_if, length, length-append, subst,
}
use go_toolkits.Base.Bytes.{Bytes}
use go_toolkits.Base.Assoc.{bytes_eq, lookup}
use go_toolkits.Redis.PubSub.{
  Message, capacity, Client, Receiver, receiving, taking, returned, taken_out, if_taking,
  if_receiving, take_out, takes_out, new_client, receive_message, re_subscribe, call_back,
  take_from, push_message, end_pushing, subscribe, unsubscribe, close, Event, receives,
  loses_connection, pushes, ends, closes, subscribes, unsubscribes, refusal, act, step, run,
}

-- The first list is the second with some elements left out.
pub data Sublist {A : Type 0} : List A → List A → Type 0 where
  done : Sublist [] []
  skip : {x : A} {xs ys : List A} → Sublist xs ys → Sublist xs (x ∷ ys)
  keep : {x : A} {xs ys : List A} → Sublist xs ys → Sublist (x ∷ xs) (x ∷ ys)

module _ {A : Type 0} where
  Sublist-later : (y : A) {xs ys : List A} → Sublist xs ys → Sublist xs (ys ++ y ∷ [])
  Sublist-later y done = skip done
  Sublist-later y (skip s) = skip (Sublist-later y s)
  Sublist-later y (keep s) = keep (Sublist-later y s)

  Sublist-last : (y : A) {xs ys : List A} → Sublist xs ys → Sublist (xs ++ y ∷ []) (ys ++ y ∷ [])
  Sublist-last y done = keep done
  Sublist-last y (skip s) = skip (Sublist-last y s)
  Sublist-last y (keep s) = keep (Sublist-last y s)

  Sublist_refl : (xs : List A) → Sublist xs xs
  Sublist_refl [] = done
  Sublist_refl (x ∷ xs) = keep (Sublist_refl xs)

  Sublist_trans : {ys zs : List A} → Sublist ys zs → {xs : List A} → Sublist xs ys → Sublist xs zs
  Sublist_trans done s = s
  Sublist_trans (skip t) s = skip (Sublist_trans t s)
  Sublist_trans (keep t) (skip s) = skip (Sublist_trans t s)
  Sublist_trans (keep t) (keep s) = keep (Sublist_trans t s)

  Sublist-without : (ps : List A) (x : A) (ms : List A) → Sublist (ps ++ ms) (ps ++ x ∷ ms)
  Sublist-without [] x ms = skip (Sublist_refl ms)
  Sublist-without (p ∷ ps) x ms = keep (Sublist-without ps x ms)

abbrev pub data_of : List Message → List Bytes
data_of [] = []
data_of (m ∷ ms) = m.data_ ∷ data_of ms

data_of-append :
    (ms : List Message) (m : Message) → data_of (ms ++ m ∷ []) ≡ data_of ms ++ m.data_ ∷ []
data_of-append [] m = refl
data_of-append (x ∷ ms) m = ap (λ ds. x.data_ ∷ ds) (data_of-append ms m)

module _ {F : Type 0} where
  abbrev pub passed : List (F × Bytes) → List Bytes
  passed [] = []
  passed ((cb, d) ∷ cs) = d ∷ passed cs

  passed-append :
      (cs : List (F × Bytes)) (cb : F) (d : Bytes)
      → passed (cs ++ (cb, d) ∷ []) ≡ passed cs ++ d ∷ []
  passed-append [] cb d = refl
  passed-append ((f, e) ∷ cs) cb d = ap (λ ds. e ∷ ds) (passed-append cs cb d)

  -- What redigo hands to receiveMessages.
  abbrev pub received : List (Event F) → List Message
  received [] = []
  received (receives m ∷ es) = m ∷ received es
  received (_ ∷ es) = received es

  -- Of the messages so far, some were processed and some wait, in their order; the callbacks got data of
  -- those that were processed; and the channel is within its capacity.
  record Inv (ms : List Message) (c : Client F) : Type 0 where
    order : Sublist (c.processed ++ c.ch) ms
    calls : Sublist (passed c.called) (data_of c.processed)
    bound : length c.ch ≤ capacity

  later : (m : Message) {ms : List Message} {c : Client F} → Inv ms c → Inv (ms ++ m ∷ []) c
  later m i = record { order = Sublist-later m i.order; calls = i.calls; bound = i.bound }

  taken_out-Inv :
      (q ms : List Message) (c : Client F) → c.ch ≡ q → Inv ms c → Inv ms (taken_out q c)
  taken_out-Inv [] ms c e i =
      by_if (Inv ms) c.ch_closed (λ _. record { order = i.order; calls = i.calls; bound = i.bound })
        (λ _. i)
  taken_out-Inv (m ∷ q) ms c e i = record {
    order =
        Sublist_trans (subst (λ q. Sublist (c.processed ++ q) ms) e i.order)
          (Sublist-without c.processed m q);
    calls = i.calls;
    bound = omega (arith, i.bound, ap length e);
  }

  if_taking-Inv :
      (r : Receiver) (ms : List Message) (c d : Client F)
      → Inv ms c
      → Inv ms d
      → Inv ms (if_taking r c d)
  if_taking-Inv receiving ms c d i j = i
  if_taking-Inv taking ms c d i j = j
  if_taking-Inv returned ms c d i j = i

  if_receiving-Inv :
      (r : Receiver) (ms : List Message) (c d : Client F)
      → Inv ms c
      → Inv ms d
      → Inv ms (if_receiving r c d)
  if_receiving-Inv receiving ms c d i j = j
  if_receiving-Inv taking ms c d i j = i
  if_receiving-Inv returned ms c d i j = i

  take_out-Inv : (ms : List Message) (c : Client F) → Inv ms c → Inv ms (take_out c)
  unfolding take_out
  take_out-Inv ms c i = if_taking-Inv c.receiver ms c _ i (taken_out-Inv c.ch ms c refl i)

  receive_message-Inv :
      (m : Message) (ms : List Message) (c : Client F)
      → Inv ms c
      → Inv (ms ++ m ∷ []) (receive_message m c)
  unfolding receive_message
  receive_message-Inv m ms c i =
      let j = later m i in
      if_receiving-Inv c.receiver (ms ++ m ∷ []) c _ j (
        by_if (Inv (ms ++ m ∷ [])) c.ch_closed
          (λ _. record { order = j.order; calls = j.calls; bound = j.bound })
          (λ _.
            by_if (Inv (ms ++ m ∷ [])) (ltb (length c.ch) capacity)
              (λ h. record {
                order =
                    subst (λ xs. Sublist xs (ms ++ m ∷ [])) (append_assoc c.processed c.ch (m ∷ []))
                      (Sublist-last m i.order);
                calls = i.calls;
                bound = ground (arith, length-append c.ch (m ∷ []), h);
              })
              (λ h. record { order = j.order; calls = j.calls; bound = j.bound })))

  -- The state in which a callback is called.
  abbrev taken : Message → List Message → Client F → Client F
  taken m q c = record c { ch = q; processed = c.processed ++ m ∷ [] }

  taken-order :
      (m : Message) (q ms : List Message) (c : Client F)
      → c.ch ≡ m ∷ q
      → Inv ms c
      → Sublist ((c.processed ++ m ∷ []) ++ q) ms
  taken-order m q ms c e i =
      subst (λ xs. Sublist xs ms)
        (ap (λ xs. c.processed ++ xs) e ∙ sym (append_assoc c.processed (m ∷ []) q)) i.order

  call_back-Inv :
      (o : Option F) (m : Message) (q ms : List Message) (c : Client F)
      → c.ch ≡ m ∷ q
      → Inv ms c
      → Inv ms (call_back o m (taken m q c))
  call_back-Inv none m q ms c e i = record {
    order = taken-order m q ms c e i;
    calls =
        subst (Sublist (passed c.called)) (sym (data_of-append c.processed m))
          (Sublist-later m.data_ i.calls);
    bound = omega (arith, i.bound, ap length e);
  }
  call_back-Inv (some cb) m q ms c e i = record {
    order = taken-order m q ms c e i;
    calls =
        subst (Sublist (passed (c.called ++ (cb, m.data_) ∷ [])))
          (sym (data_of-append c.processed m))
          (subst (λ xs. Sublist xs (data_of c.processed ++ m.data_ ∷ []))
            (sym (passed-append c.called cb m.data_)) (Sublist-last m.data_ i.calls));
    bound = omega (arith, i.bound, ap length e);
  }

  take_from-Inv :
      (q ms : List Message) (c : Client F) → c.ch ≡ q → Inv ms c → Inv ms (take_from q c)
  unfolding take_from
  take_from-Inv [] ms c e i = i
  take_from-Inv (m ∷ q) ms c e i = call_back-Inv (lookup m.channel c.subscriptions) m q ms c e i

  push_message-Inv : (ms : List Message) (c : Client F) → Inv ms c → Inv ms (push_message c)
  unfolding push_message
  push_message-Inv ms c i = by_if (Inv ms) c.pushing (λ _. take_from-Inv c.ch ms c refl i) (λ _. i)

  same-Inv :
      (ms : List Message) (c d : Client F)
      → Inv ms c
      → d.ch ≡ c.ch
      → d.processed ≡ c.processed
      → d.called ≡ c.called
      → Inv ms d
  same-Inv ms c d i e p k = record {
    order = rw (e, p) i.order;
    calls = rw (p, k) i.calls;
    bound = rw e i.bound;
  }

  end_pushing-Inv : (ms : List Message) (c : Client F) → Inv ms c → Inv ms (end_pushing c)
  unfolding end_pushing
  end_pushing-Inv ms c i =
      by_if (Inv ms) (c.pushing && c.done_closed) (λ _. same-Inv ms c _ i refl refl refl) (λ _. i)

  close-Inv : (ms : List Message) (c : Client F) → Inv ms c → Inv ms (close c)
  unfolding close
  close-Inv ms c i =
      by_if (Inv ms) c.done_closed (λ _. same-Inv ms c _ i refl refl refl)
        (λ _. same-Inv ms c _ i refl refl refl)

  subscribe-Inv :
      (channel : Bytes) (cb : F) (b : Bool) (ms : List Message) (c : Client F)
      → Inv ms c
      → Inv ms (subscribe channel cb (refusal b) c).0
  unfolding subscribe
  subscribe-Inv channel cb true ms c i = i
  subscribe-Inv channel cb false ms c i = same-Inv ms c _ i refl refl refl

  -- The messages of an event.
  abbrev brings : Event F → List Message
  brings (receives m) = m ∷ []
  brings _ = []

  quiet : {ms : List Message} {c : Client F} → Inv ms c → Inv (ms ++ []) c
  quiet {ms = ms} {c = c} i = subst (λ xs. Inv xs c) (sym (append-nil ms)) i

  act-Inv :
      (e : Event F) (ms : List Message) (c : Client F) → Inv ms c → Inv (ms ++ brings e) (act e c)
  unfolding act re_subscribe unsubscribe
  act-Inv (receives m) ms c i = receive_message-Inv m ms c i
  act-Inv (loses_connection accepts) ms c i =
      quiet (if_receiving-Inv c.receiver ms c _ i (same-Inv ms c _ i refl refl refl))
  act-Inv takes_out ms c i = quiet (take_out-Inv ms c i)
  act-Inv pushes ms c i = quiet (push_message-Inv ms c i)
  act-Inv ends ms c i = quiet (end_pushing-Inv ms c i)
  act-Inv closes ms c i = quiet (close-Inv ms c i)
  act-Inv (subscribes channel cb b) ms c i = quiet (subscribe-Inv channel cb b ms c i)
  act-Inv (unsubscribes channel) ms c i = quiet (same-Inv ms c _ i refl refl refl)

  still-Inv : (e : Event F) (ms : List Message) (c : Client F) → Inv ms c → Inv (ms ++ brings e) c
  still-Inv (receives m) ms c i = later m i
  still-Inv (loses_connection accepts) ms c i = quiet i
  still-Inv takes_out ms c i = quiet i
  still-Inv pushes ms c i = quiet i
  still-Inv ends ms c i = quiet i
  still-Inv closes ms c i = quiet i
  still-Inv (subscribes channel cb b) ms c i = quiet i
  still-Inv (unsubscribes channel) ms c i = quiet i

  received_cons : (e : Event F) (es : List (Event F)) → received (e ∷ es) ≡ brings e ++ received es
  received_cons (receives m) es = refl
  received_cons (loses_connection accepts) es = refl
  received_cons takes_out es = refl
  received_cons pushes es = refl
  received_cons ends es = refl
  received_cons closes es = refl
  received_cons (subscribes channel cb b) es = refl
  received_cons (unsubscribes channel) es = refl

  run-Inv :
      (es : List (Event F)) (ms : List Message) (c : Client F)
      → Inv ms c
      → Inv (ms ++ received es) (run es c)
  unfolding run step
  run-Inv [] ms c i = quiet i
  run-Inv (e ∷ es) ms c i =
      subst (λ xs. Inv xs (run es (step e c)))
        (append_assoc ms (brings e) (received es) ∙ ap (λ xs. ms ++ xs) (sym (received_cons e es)))
        (run-Inv es (ms ++ brings e) (step e c) (
          by_if (Inv (ms ++ brings e)) c.panicked (λ _. still-Inv e ms c i)
            (λ _. act-Inv e ms c i)))

  -- Over any events, in any order, from a new client on: the messages that were processed and those that
  -- wait are among those received, in their order; callbacks got the data of messages that were
  -- processed, in their order; and at most 4096 messages wait.
  pub run_in_order :
      (es : List (Event F))
      → let c = run es new_client in
        Sublist (c.processed ++ c.ch) (received es)
        × Sublist (passed c.called) (data_of c.processed)
        × (length c.ch ≤ 4096)
  unfolding new_client
  run_in_order es =
      let i =
        run-Inv es [] new_client (record { order = done; calls = done; bound = omega arith }) in
      (i.order, i.calls, i.bound)
