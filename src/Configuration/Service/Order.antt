-- ===== src/Configuration/Service/Order.antt =====
-- Every command of the service asks, records and commits in order.
use zsj_crm.Prelude.{
  ℕ, zero, suc, ◌≡◌, refl, true, Option, none, some, List, [], ◌∷◌, String, lookup, Bool-cases,
  Option-cases, inl, inr, Number,
}
use zsj_crm.Configuration.Facts.{Scope, Event, EventType}
use zsj_crm.Configuration.Store.{Store}
use zsj_crm.Configuration.Validation.{Value, Metadata, RawItem, RawDefinition}
use zsj_crm.Configuration.Service.{
  World, State, Run, mapped, event_of, outside, throw, present, query, read_clock, find_definition,
  ◌>>=◌, catch,
}
use zsj_crm.Configuration.Service.Commands.{
  check_current, save_dictionary_draft, publish_dictionary, register_parameter,
  publish_parameter_value, activate_parameter, terminate_parameter_activation, Input, saves_draft,
  publishes_dictionary, registers, publishes_value, activates, terminates, serve, serve_all,
}
use zsj_crm.Configuration.Service.Protocol.{
  Commits, phase, in_order, Orderly, >>=-Orderly, >>-Orderly, catch-Orderly, lift-Orderly,
  throw_if-Orderly, commit-Commits, mutate-Orderly, authorize_before_lookup-Orderly,
}

module _ {R C : Type 0} (w : World R C) where
  query-Orderly : {A : Type 0} (f : Store Value → A) → Orderly (query w f)
  unfolding query
  query-Orderly f s h = elim (Bool-cases (w.stored s.calls)) [ inl e ↦ rw e h | inr e ↦ rw e h ]

  present-Orderly : {A : Type 0} (o : Option A) → Orderly (present w o)
  present-Orderly none s h = h
  present-Orderly (some a) s h = h

  lookup-Orderly :
      {A : Type 0} (f : Store Value → A) → Orderly (catch (query w f) (λ e. throw (mapped e)))
  lookup-Orderly f = catch-Orderly (query w f) _ (query-Orderly f) (λ e s h. h)

  find_definition-Orderly : (key : String) → Orderly (find_definition w key)
  unfolding find_definition
  find_definition-Orderly key s h =
      let t = (outside w s).0 in
      elim (Bool-cases (w.stored s.calls)) [
        | inr e ↦ rw e h
        | inl e ↦ elim (Option-cases (lookup key t.store.definitions)) [
          | inl f ↦ rw (e, f) h
          | inr (d, f) ↦ rw (e, f) h
        ]
      ]

  check_current-Orderly :
      (meta : Metadata) (id owner : String) (n : ℕ) → Orderly (check_current w meta id owner n)
  check_current-Orderly meta id owner zero = λ s h. h
  check_current-Orderly meta id owner (suc n) =
      >>-Orderly _ _ (authorize_before_lookup-Orderly w meta _ _ id)
        (>>=-Orderly _ _ (lookup-Orderly _) (λ o. throw_if-Orderly _ _))

  -- What makes an event, or reads the clock, does nothing else.
  event-Commits :
      {A : Type 0} (operation : String) (t : EventType) (resource : String) (next : Event → Run A)
      → ((e : Event) → Commits operation (next e))
      → Commits operation (event_of w t resource >>= next)
  unfolding ◌>>=◌
  event-Commits operation t resource next h s = h _ (record s { calls = suc s.calls })

  clock-Commits :
      {A : Type 0} (operation : String) (next : String → Run A)
      → ((now : String) → Commits operation (next now))
      → Commits operation (read_clock w >>= next)
  unfolding ◌>>=◌
  clock-Commits operation next h s = h _ (record s { calls = suc s.calls })

  register_parameter-Orderly :
      (raw : Metadata) (d : RawDefinition) → Orderly (register_parameter w raw d)
  unfolding register_parameter
  register_parameter-Orderly raw d = >>=-Orderly _ _ (lift-Orderly _) (λ meta.
      >>=-Orderly _ _ (lift-Orderly _)
        (λ definition. mutate-Orderly w meta _ _ _ _ _ (commit-Commits w _)))

  save_dictionary_draft-Orderly :
      (raw : Metadata) (id : String) (revision : Number) (items : List RawItem) (owner : String)
      → Orderly (save_dictionary_draft w raw id revision items owner)
  unfolding save_dictionary_draft
  save_dictionary_draft-Orderly raw id revision items owner =
      >>=-Orderly _ _ (lift-Orderly _) (λ meta. >>=-Orderly _ _ (lift-Orderly _) (λ dictionary_id.
        >>=-Orderly _ _ (lift-Orderly _) (λ owner_module.
          >>=-Orderly _ _ (lift-Orderly _) (λ expected. >>=-Orderly _ _ (lift-Orderly _) (λ items.
            >>-Orderly _ _ (check_current-Orderly meta _ _ expected) (
              >>=-Orderly (read_clock w) _ (λ s h. h)
                (λ now. mutate-Orderly w meta _ _ _ _ _ (commit-Commits w _))))))))

  publish_dictionary-Orderly :
      (raw : Metadata) (id : String) (revision : Number)
      → Orderly (publish_dictionary w raw id revision)
  unfolding publish_dictionary
  publish_dictionary-Orderly raw id revision = >>=-Orderly _ _ (lift-Orderly _) (λ meta.
      >>=-Orderly _ _ (lift-Orderly _) (λ dictionary_id.
        >>=-Orderly _ _ (lift-Orderly _) (λ expected.
          >>-Orderly _ _ (authorize_before_lookup-Orderly w meta _ _ _) (
            >>=-Orderly _ _ (lookup-Orderly _) (λ found.
              >>=-Orderly _ _ (present-Orderly found) (λ draft. mutate-Orderly w meta _ _ _ _ _ (
                event-Commits meta.operation_id _ _ _
                  (λ e. clock-Commits meta.operation_id _ (λ now. commit-Commits w _)))))))))

  publish_parameter_value-Orderly :
      (raw : Metadata) (key : String) (value : Value)
      → Orderly (publish_parameter_value w raw key value)
  unfolding publish_parameter_value
  publish_parameter_value-Orderly raw key value = >>=-Orderly _ _ (lift-Orderly _) (λ meta.
      >>=-Orderly _ _ (lift-Orderly _) (λ parameter_key.
        >>-Orderly _ _ (authorize_before_lookup-Orderly w meta _ _ _) (
          >>=-Orderly _ _ (find_definition-Orderly _) (λ definition.
            >>=-Orderly _ _ (lift-Orderly _) (λ typed. >>=-Orderly _ _ (lift-Orderly _) (λ fits.
              >>-Orderly _ _ (throw_if-Orderly _ _) (
                mutate-Orderly w meta _ _ _ _ _ (
                  event-Commits meta.operation_id _ _ _
                    (λ e. clock-Commits meta.operation_id _ (λ now. commit-Commits w _))))))))))

  activate_parameter-Orderly :
      (raw : Metadata) (id from : String) (to : Option String) (key : String) (scope : Scope)
      (version : Number)
      → Orderly (activate_parameter w raw id from to key scope version)
  unfolding activate_parameter
  activate_parameter-Orderly raw id from to key scope version =
      >>=-Orderly _ _ (lift-Orderly _) (λ meta. >>=-Orderly _ _ (lift-Orderly _) (λ parameter_key.
        >>-Orderly _ _ (authorize_before_lookup-Orderly w meta _ _ _) (
          >>=-Orderly _ _ (find_definition-Orderly _) (λ definition.
            >>=-Orderly _ _ (lift-Orderly _) (λ parsed.
              >>=-Orderly _ _ (lift-Orderly _) (λ value_version.
                >>=-Orderly _ _ (lift-Orderly _) (λ activation_id.
                  >>=-Orderly _ _ (lift-Orderly _) (λ effective_from.
                    >>=-Orderly _ _ (lift-Orderly _) (λ effective_to.
                      >>-Orderly _ _ (throw_if-Orderly _ _) (
                        mutate-Orderly w meta _ _ _ _ _ (
                          event-Commits meta.operation_id _ _ _ (λ e. commit-Commits w _))))))))))))

  terminate-Orderly :
      (raw : Metadata) (id to key termination : String)
      → Orderly (terminate_parameter_activation w raw id to key termination)
  unfolding terminate_parameter_activation
  terminate-Orderly raw id to key termination = >>=-Orderly _ _ (lift-Orderly _) (λ meta.
      >>=-Orderly _ _ (lift-Orderly _) (λ parameter_key.
        >>-Orderly _ _ (authorize_before_lookup-Orderly w meta _ _ _) (
          >>=-Orderly _ _ (find_definition-Orderly _) (λ definition.
            >>=-Orderly _ _ (lift-Orderly _) (λ activation_id.
              >>=-Orderly _ _ (lift-Orderly _) (λ termination_id.
                >>=-Orderly _ _ (lift-Orderly _) (λ effective_to.
                  >>=-Orderly (read_clock w) _ (λ s h. h)
                    (λ occurred_at. >>-Orderly _ _ (throw_if-Orderly _ _) (
                      mutate-Orderly w meta _ _ _ _ _
                        (event-Commits meta.operation_id _ _ _ (λ e. commit-Commits w _)))))))))))

  serve-Orderly : (i : Input) → Orderly (serve w i)
  unfolding serve
  serve-Orderly (saves_draft meta id revision items owner) =
      save_dictionary_draft-Orderly meta id revision items owner
  serve-Orderly (publishes_dictionary meta id revision) =
      publish_dictionary-Orderly meta id revision
  serve-Orderly (registers meta definition) = register_parameter-Orderly meta definition
  serve-Orderly (publishes_value meta key value) = publish_parameter_value-Orderly meta key value
  serve-Orderly (activates meta id from to key scope version) =
      activate_parameter-Orderly meta id from to key scope version
  serve-Orderly (terminates meta id to key termination) =
      terminate-Orderly meta id to key termination

  serve_all-Orderly :
      (is : List Input) (s : State) → in_order s ≡ true → in_order (serve_all w is s) ≡ true
  serve_all-Orderly [] s h = h
  serve_all-Orderly (i ∷ is) s h = serve_all-Orderly is (serve w i s).0 (serve-Orderly i s h)

  -- Whatever the other parts answer and other clients do, and whichever commands are served: the store
  -- accepts a command of the service only right after the entry of its operation's attempt, which
  -- follows right on a decision that allows it, for the resource that was asked about; and a denial, a
  -- failure and a success are recorded only for a decision that refuses, an attempt, and a commit.
  pub serve_all-in_order :
      (is : List Input) (s : State) → s.log ≡ [] → in_order (serve_all w is s) ≡ true
  unfolding phase
  serve_all-in_order is s h = serve_all-Orderly is s (rw h refl)
