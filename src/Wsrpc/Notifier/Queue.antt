-- ===== src/Wsrpc/Notifier/Queue.antt =====
-- wsrpc/notifier.go: what the queue holds, and what the connection gets.
use go_toolkits.Base.{
  ◌≤◌, ◌≡◌, refl, sym, ◌∙◌, ap, ◌≢◌, true, false, List, [], ◌∷◌, ◌++◌, append_assoc, append-nil,
  arith, ltb, if◌then◌else◌, length, length-append, by_if,
}
use go_toolkits.Wsrpc.Notifier.{
  Notify, Notifier, Outcome, accepted, full, not_open, panicked, capacity, new_notifier, send,
  notify, close, receive, take_next, clean_from, clean,
}

-- What may happen to a notifier, Clean and the race of Notify with Close left aside.
pub data Event (A : Type 0) : Type 0 where
  notifies : Notify A → Event A
  takes closes : Event A

module _ {A : Type 0} where
  abbrev pub step : Event A → Notifier A → Notifier A
  step (notifies x) n = (notify x n).0
  step takes n = take_next n
  step closes n = close n

  abbrev pub run : List (Event A) → Notifier A → Notifier A
  run [] n = n
  run (e ∷ es) n = run es (step e n)

  abbrev one_accepted : Outcome → Notify A → List (Notify A)
  one_accepted accepted x = x ∷ []
  one_accepted _ x = []

  -- The notifications for which Notify answers nil.
  abbrev pub accepted_by : List (Event A) → Notifier A → List (Notify A)
  accepted_by [] n = []
  accepted_by (notifies x ∷ es) n = one_accepted (notify x n).1 x ++ accepted_by es (notify x n).0
  accepted_by (takes ∷ es) n = accepted_by es (take_next n)
  accepted_by (closes ∷ es) n = accepted_by es (close n)

  -- What was handed on or waits, in order.
  abbrev all_of : Notifier A → List (Notify A)
  all_of n = n.handed ++ n.sending

  -- The queue is within its capacity, and the channel is closed exactly if isopen is false.
  pub record Inv (n : Notifier A) : Type 0 where
    pub bound : length n.sending ≤ capacity
    pub flags : n.is_closed ≡ (if n.is_open then false else true)

  record After (x : Notify A) (n : Notifier A) (p : Notifier A × Outcome) : Type 0 where
    inv : Inv p.0
    order : all_of p.0 ≡ all_of n ++ one_accepted p.1 x
    calm : p.1 ≢ panicked

  same_After :
      (x : Notify A) (n : Notifier A) (o : Outcome)
      → Inv n
      → o ≢ panicked
      → one_accepted o x ≡ []
      → After x n (n, o)
  same_After x n o i d e = record {
    inv = i;
    order = sym (append-nil (all_of n)) ∙ ap (λ ys. all_of n ++ ys) (sym e);
    calm = d;
  }

  notify-After : (x : Notify A) (n : Notifier A) → Inv n → After x n (notify x n)
  unfolding notify send
  notify-After x n i =
      by_if (After x n) n.is_open
        (λ o.
          by_if (After x n) n.is_closed (λ c. absurd (apart o c))
            (λ _.
              by_if (After x n) (ltb (length n.sending) capacity)
                (λ h. record {
                  inv = record {
                    bound = ground (arith, length-append n.sending (x ∷ []), h);
                    flags = i.flags;
                  };
                  order = sym (append_assoc n.handed n.sending (x ∷ []));
                  calm = λ e. cc;
                })
                (λ _. same_After x n full i (λ e. cc) refl)))
        (λ _. same_After x n not_open i (λ e. cc) refl)
    where
      apart : n.is_open ≡ true → n.is_closed ≡ true → ⊥
      apart o c = ground (arith, i.flags)

  -- A step without a Notify: the queue and what was handed on hold the same together.
  record Still (n n' : Notifier A) : Type 0 where
    inv : Inv n'
    order : all_of n' ≡ all_of n

  take_next-Still : (n : Notifier A) → Inv n → Still n (take_next n)
  unfolding take_next receive
  take_next-Still n i =
      by_if (Still n) n.is_open (λ o. go n.sending refl) (λ _. record { inv = i; order = refl })
    where
      go : (xs : List (Notify A)) → n.sending ≡ xs → Still n (receive xs n)
      go [] e = record { inv = i; order = refl }
      go (x ∷ xs) e = record {
        inv = record { bound = omega (arith, i.bound, ap length e); flags = i.flags };
        order = append_assoc n.handed (x ∷ []) xs ∙ ap (λ ys. n.handed ++ ys) (sym e);
      }

  close-Still : (n : Notifier A) → Inv n → Still n (close n)
  unfolding close
  close-Still n i =
      by_if (Still n) n.is_open {x = record n { is_closed = true; is_open = false }}
        (λ o. record { inv = record { bound = i.bound; flags = refl }; order = refl })
        (λ _. record { inv = i; order = refl })

  pub run-Inv :
      (es : List (Event A)) (n : Notifier A)
      → Inv n
      → Inv (run es n) × (all_of (run es n) ≡ all_of n ++ accepted_by es n)
  run-Inv [] n i = (i, sym (append-nil (all_of n)))
  run-Inv (notifies x ∷ es) n i =
      let s = notify-After x n i in
      let (inv, order) = run-Inv es (notify x n).0 s.inv in
      (
        inv,
        order
            ∙ ap (λ ys. ys ++ accepted_by es (notify x n).0) s.order
            ∙ append_assoc (all_of n) (one_accepted (notify x n).1 x) _,
      )
  run-Inv (takes ∷ es) n i =
      let s = take_next-Still n i in
      let (inv, order) = run-Inv es (take_next n) s.inv in
      (inv, order ∙ ap (λ ys. ys ++ accepted_by es (take_next n)) s.order)
  run-Inv (closes ∷ es) n i =
      let s = close-Still n i in
      let (inv, order) = run-Inv es (close n) s.inv in
      (inv, order ∙ ap (λ ys. ys ++ accepted_by es (close n)) s.order)

  -- Over any calls of Notify, NotifyArr and Close and any rounds of the loop, each in one step: the
  -- notifications that were accepted are those handed to the connection and then those that still
  -- wait, in the order of acceptance, at most a thousand wait, and a further Notify does not panic.
  pub run_order :
      (es : List (Event A))
      → let n = run es new_notifier in
        (n.handed ++ n.sending ≡ accepted_by es new_notifier)
        × (length n.sending ≤ capacity)
        × ((x : Notify A) → (notify x n).1 ≢ panicked)
  unfolding new_notifier
  run_order es =
      let (inv, order) = run-Inv es new_notifier (record { bound = omega arith; flags = refl }) in
      (order, inv.bound, λ x. (notify-After x _ inv).calm)

  -- A Notify that finds isopen true before a Close, and sends after it, panics: whatever the queue
  -- holds, the channel that it sends on is closed.
  pub send-close :
      (x : Notify A) (n : Notifier A) → n.is_open ≡ true → (send x (close n)).1 ≡ panicked
  unfolding send close
  send-close x n o = rw o refl

  clean_from_last :
      (ys : List (Notify A)) (x : Notify A)
      → clean_from (length (ys ++ x ∷ [])) (ys ++ x ∷ []) ≡ x ∷ []
  unfolding clean_from
  clean_from_last [] x = refl
  clean_from_last (y ∷ []) x = refl
  clean_from_last (y ∷ z ∷ ys) x = clean_from_last (z ∷ ys) x

  -- Clean leaves the newest notification of an open notifier, and hands none to the connection.
  pub clean_last :
      (n : Notifier A) (ys : List (Notify A)) (x : Notify A)
      → n.is_open ≡ true
      → n.sending ≡ ys ++ x ∷ []
      → ((clean n).sending ≡ x ∷ []) × ((clean n).handed ≡ n.handed)
  unfolding clean
  clean_last n ys x o e = rw o (ap (λ q. clean_from (length q) q) e ∙ clean_from_last ys x, refl)
