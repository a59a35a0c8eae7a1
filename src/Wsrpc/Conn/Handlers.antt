-- ===== src/Wsrpc/Conn/Handlers.antt =====
-- wsrpc/conn.go: which close handlers are called, and what the data of a connection hold.
use go_toolkits.Base.{
  ℕ, ◌≡◌, refl, sym, ◌∙◌, ap, ◌≢◌, true, false, none, some, List, [], ◌∷◌, ◌++◌, append_assoc,
  append-nil, arith, if◌then◌else◌,
}
use go_toolkits.Base.Bytes.{Bytes, same_iff}
use go_toolkits.Base.Assoc.{bytes_eq, lookup-insert, lookup-remove}
use go_toolkits.Wsrpc.Conn.{Conn, terminate, on_close, get_data, set_data, del_data}

module _ {D : Type 0} where
  abbrev pub on_close_all : List ℕ → Conn D → Conn D
  on_close_all [] c = c
  on_close_all (f ∷ fs) c = on_close_all fs (on_close f c)

  on_close_all_open :
      (fs : List ℕ) (c : Conn D)
      → c.closed ≡ false
      → ((on_close_all fs c).called ≡ c.called)
        × ((on_close_all fs c).close_handlers ≡ c.close_handlers ++ fs)
  unfolding on_close
  on_close_all_open [] c o = (refl, sym (append-nil c.close_handlers))
  on_close_all_open (f ∷ fs) c o =
      let (called, handlers) = on_close_all_open fs (on_close f c) o in
      (
        called ∙ ap (λ b. if b then c.called ++ f ∷ [] else c.called) o,
        handlers ∙ append_assoc c.close_handlers (f ∷ []) fs,
      )

  on_close_all_closed :
      (fs : List ℕ) (c : Conn D) → c.closed ≡ true → (on_close_all fs c).called ≡ c.called ++ fs
  unfolding on_close
  on_close_all_closed [] c o = sym (append-nil c.called)
  on_close_all_closed (f ∷ fs) c o =
      on_close_all_closed fs (on_close f c) o
      ∙ ap (λ b. (if b then c.called ++ f ∷ [] else c.called) ++ fs) o
      ∙ append_assoc c.called (f ∷ []) fs

  -- The handlers that were given before the end of an open connection are called at its end, after
  -- those it had, and those given later are called as they come: each once, in the order in which
  -- they were given.
  pub on_close_all-terminate :
      (c : Conn D) (before after : List ℕ)
      → c.closed ≡ false
      → (on_close_all after (terminate (on_close_all before c))).called
        ≡ (c.called ++ (c.close_handlers ++ before)) ++ after
  unfolding terminate
  on_close_all-terminate c before after o =
      let (called, handlers) = on_close_all_open before c o in
      on_close_all_closed after (terminate (on_close_all before c)) refl
      ∙ ap (λ fs. (fs ++ (on_close_all before c).close_handlers) ++ after) called
      ∙ ap (λ fs. (c.called ++ fs) ++ after) handlers

  -- What GetData finds: the value of the last SetData of its key, unless DelData took it away;
  -- other keys are left alone by both.
  pub get_data-set_data :
      (c : Conn D) (key other : Bytes) (v : D)
      → (get_data key (set_data key v c) ≡ some v)
        × (get_data key (del_data key c) ≡ none)
        × (key ≢ other
            → (get_data other (set_data key v c) ≡ get_data other c)
              × (get_data other (del_data key c) ≡ get_data other c))
  unfolding get_data set_data del_data
  get_data-set_data c key other v = (
    ground (arith, lookup-insert key key v c.extra_data, same_iff key key),
    ground (arith, lookup-remove key key c.extra_data, same_iff key key),
    λ d. (
      ground (arith, lookup-insert key other v c.extra_data, same_iff key other),
      ground (arith, lookup-remove key other c.extra_data, same_iff key other),
    ),
  )
