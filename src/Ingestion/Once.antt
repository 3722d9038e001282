-- ===== src/Ingestion/Once.antt =====
-- How often `EventProcessorService` applies an event, and that it always answers.
use trustflow_backend.Prelude.{
  String, ◌≡◌, refl, sym, ap, subst, ◌∙◌, suc, Option, none, some, Bool, false, arith, List, [],
  ◌∷◌, Option-cases, inl, inr, eq_refl,
}
use trustflow_backend.Prelude.Exec.{Error, Result, ok, err, message, recover, resume, try_catch}
use trustflow_backend.Prelude.JsMap
use trustflow_backend.Prelude.JsMap.{get-set}
use trustflow_backend.Prelude.Keeps.{Keeps, Keeps-bind, Keeps-try_catch, Keeps-when_else}
use trustflow_backend.Prelude.Total.{IsTotal, IsTotal-bind, IsTotal-try_catch, total_rules}
use trustflow_backend.Redis.{ExecResults}
use trustflow_backend.World.{Env, World, Action, ask}
use trustflow_backend.Dispute.Store.{assert_transaction_ok, check_commands}
use trustflow_backend.Dispute.Total.{IsTotal-get_now, IsTotal-increment, IsTotal-with_redis}
use trustflow_backend.Data.Ingestion.{SorobanEvent, ProcessedEvent}
use trustflow_backend.Ingestion.Processor.{
  id_of, try_get, persist, outcome, conclude, apply_event, process_new, process_found,
  process_event,
}

module _ ⦃E : Env⦄ where
  ruleset answers = (total_rules, IsTotal-get_now, IsTotal-increment, IsTotal-with_redis)

  IsTotal-try_get : (id : String) → IsTotal (try_get id)
  unfolding try_get
  IsTotal-try_get id = search answers depth 8

  IsTotal-persist : (p : ProcessedEvent) → IsTotal (persist p)
  unfolding persist
  IsTotal-persist p = search answers depth 8

  IsTotal-conclude : (event : SorobanEvent) (error : Option String) → IsTotal (conclude event error)
  unfolding conclude
  IsTotal-conclude event error = search (answers, IsTotal-persist) depth 8

  IsTotal-process_found :
      (event : SorobanEvent) (o : Option ProcessedEvent) → IsTotal (process_found event o)
  unfolding process_new
  IsTotal-process_found event none = IsTotal-try_catch _ _ (λ e. IsTotal-conclude event _)
  IsTotal-process_found event (some p) = record { at = λ s. (p, refl) }

  -- Processing an event never throws, whatever Redis answers and whatever its handler throws: it
  -- returns a record of the event.
  pub process_event-IsTotal : (event : SorobanEvent) → IsTotal (process_event event)
  unfolding process_event
  process_event-IsTotal event =
      IsTotal-bind (try_get (id_of event)) _ (IsTotal-try_get _) (IsTotal-process_found event)

  abbrev has_client : World E.Remote → Bool
  has_client w = w.client

  check_commands-Keeps : (rs : List (Option String)) → Keeps has_client (check_commands rs)
  unfolding check_commands
  check_commands-Keeps [] = record { at = λ w. refl }
  check_commands-Keeps (none ∷ rs) = check_commands-Keeps rs
  check_commands-Keeps (some m ∷ rs) = record { at = λ w. refl }

  assert-Keeps : (rs : ExecResults) → Keeps has_client (assert_transaction_ok rs)
  unfolding assert_transaction_ok
  assert-Keeps none = record { at = λ w. refl }
  assert-Keeps (some rs) = check_commands-Keeps rs

  persist-Keeps : (p : ProcessedEvent) → Keeps has_client (persist p)
  unfolding persist
  persist-Keeps p = record {
    at = λ w.
        (Keeps-when_else has_client w.client _ _
            (Keeps-try_catch has_client _ _
              (Keeps-bind has_client (ask (E.exec _)) _ (record { at = λ v. refl }) assert-Keeps)
              (λ e. record { at = λ v. refl }))
            (record { at = λ v. refl })).at
          w;
  }

  conclude-Keeps :
      (event : SorobanEvent) (error : Option String) → Keeps has_client (conclude event error)
  unfolding conclude
  conclude-Keeps event error = record {
    at = λ w.
        (Keeps-bind has_client (persist _) _ (persist-Keeps _) (λ _. record { at = λ v. refl })).at
          (record w { ticks = suc w.ticks });
  }

  -- The answer is the record that the map holds afterwards.
  abbrev Recorded : SorobanEvent → Result ProcessedEvent × World E.Remote → Type 0
  Recorded event out =
      (p : ProcessedEvent) × out.0 ≡ ok p × JsMap.get (id_of event) out.1.processed ≡ some p

  conclude_local :
      (event : SorobanEvent) (error : Option String) (w : World E.Remote)
      → (conclude event error w).1.client ≡ false
      → Recorded event (conclude event error w)
  unfolding conclude persist
  conclude_local event error w off =
      let there : w.client ≡ false = sym ((conclude-Keeps event error).at w) ∙ off in
      let p = outcome event error (E.clock w.ticks).iso in
      (
        p,
        ground (arith, there),
        ground (
          arith,
          there,
          get-set (id_of event) (id_of event) p w.processed,
          eq_refl (id_of event),
        ),
      )

  recover_ok :
      {A : Type 0} (x : Result A × World E.Remote) (h : Error → Action A) {a : A}
      → x.0 ≡ ok a
      → recover x.0 h x.1 ≡ x
  recover_ok (ok b, s) h e = refl
  recover_ok (err b, s) h e = cc

  concluded :
      (event : SorobanEvent) (r : Result (Unit {0})) (s : World E.Remote)
      → (try_catch
          (λ _. resume r (λ _. conclude event none) s)
          (λ e. conclude event (some (message e)))
          s).1.client
        ≡ false
      → Recorded event (
          try_catch
            (λ _. resume r (λ _. conclude event none) s)
            (λ e. conclude event (some (message e)))
            s)
  concluded event (err e) s off = conclude_local event (some (message e)) s off
  concluded event (ok tt) s off =
      let (p, answers) = (IsTotal-conclude event none).at s in
      let same =
        recover_ok (conclude event none s) (λ e. conclude event (some (message e))) answers in
      subst (Recorded event) (sym same)
        (conclude_local event none s (ap (λ x. x.1.client) (sym same) ∙ off))

  process_new_local :
      (event : SorobanEvent) (w : World E.Remote)
      → (process_new event w).1.client ≡ false
      → Recorded event (process_new event w)
  unfolding process_new
  process_new_local event w off =
      concluded event (apply_event event w).0 (apply_event event w).1 off

  known :
      (event : SorobanEvent) (w : World E.Remote) {p : ProcessedEvent}
      → w.client ≡ false
      → JsMap.get (id_of event) w.processed ≡ some p
      → process_event event w ≡ (ok p, w)
  unfolding process_event try_get
  known event w off g = ground (arith)

  unknown :
      (event : SorobanEvent) (w : World E.Remote)
      → w.client ≡ false
      → JsMap.get (id_of event) w.processed ≡ none
      → process_event event w ≡ process_new event w
  unfolding process_event try_get
  unknown event w off g = rw (off, g)

  again :
      (event : SorobanEvent) (out : Result ProcessedEvent × World E.Remote)
      → out.1.client ≡ false
      → Recorded event out
      → process_event event out.1 ≡ out
  again event out off (p, answer, held) =
      known event out.1 off held ∙ ap (λ (r : Result ProcessedEvent). (r, out.1)) (sym answer)

  -- With no client, an event that is processed again, because it was fetched twice or retried after a
  -- restart of the polling, gets the record of the first time, and nothing at all changes: its effect
  -- on the escrows is not repeated. The process is assumed to be without a client after the first time,
  -- as before it.
  pub process_event_again :
      (event : SorobanEvent) (w : World E.Remote)
      → w.client ≡ false
      → (process_event event w).1.client ≡ false
      → process_event event (process_event event w).1 ≡ process_event event w
  process_event_again event w off off' = elim (Option-cases (JsMap.get (id_of event) w.processed)) [
    | inl new ↦
        let same = unknown event w off new in
        again event (process_event event w) off' (
          subst (Recorded event) (sym same)
            (process_new_local event w (ap (λ x. x.1.client) (sym same) ∙ off')))
    | inr (p, old) ↦
        let same = known event w off old in
        again event (process_event event w) off' (subst (Recorded event) (sym same) (p, refl, old))
  ]
