-- ===== src/Webhook.antt =====
-- pkg/webhook/webhook.go: the handlers of the webhook contract, from a request to its answer.
pub mod Http
pub mod Dropped
pub mod Answers
pub mod Served
pub mod Examples
use external_dns_openwrt_nex.Prelude.{
  ℕ, zero, suc, ◌+◌, Bool, true, false, not, ◌&&◌, ◌||◌, List, [], ◌∷◌, ◌++◌, map, Option, none,
  some, ◌≡◌, refl, sym, ap, ◌∙◌, subst, arith, inl, inr, ◌⊎◌, ◌↔◌, ◌≢◌, ltb, leb, eqb,
  if◌then◌else◌, length, any, keep, is_empty, All, Bool-cases, Option-cases, ◌≤◌, ◌<◌,
}
use external_dns_openwrt_nex.Strings.{Str, codes, ◌==◌}
use external_dns_openwrt_nex.GoMap.{GoMap, lookup, insert, str_key}
use external_dns_openwrt_nex.Exec.{Exec, Result, ok, err}
use external_dns_openwrt_nex.Metrics.{
  Float64, Registry, MetricRef, prefix, register_counter, register_gauge, counter_add, counter_inc,
  gauge_set,
}
use external_dns_openwrt_nex.Provider.Endpoints.{Endpoint, Pointers, Changes}
use external_dns_openwrt_nex.Webhook.Http.{
  HttpRequest, Json, Response, Payload, empty_body, json_filter, json_endpoints, rejection,
  json_answer, no_content, require_media_type, decode_rejection, header_accept, header_content_type,
  default_max_body_bytes,
}
use external_dns_openwrt_nex.Webhook.Dropped.{dropped_by_type}

-- How a change set ends: a nil pointer that is read stops the handler.
pub data ApplyError (E : Type 0) : Type 0 where
  failed : E → ApplyError E
  panicked : ApplyError E

pub record Provider (S E : Type 0) : Type 0 where
  pub records : Exec S E (List Endpoint)
  pub apply_changes : Changes → Exec S (ApplyError E) (Unit {0})
  pub adjust_endpoints : Pointers → S → Pointers × S

pub record WebhookMetrics : Type 0 where
  pub records : MetricRef
  pub applied : MetricRef
  pub planned : MetricRef
  pub dropped : MetricRef
  pub last_success : MetricRef

pub record Webhook (S E B : Type 0) : Type 0 where
  pub provider : Provider S E
  pub json : Json B
  pub metrics : WebhookMetrics
  pub max_body_bytes : ℕ

-- What the handlers change: the provider's world, and the registry.
pub record Server (S F : Type 0) : Type 0 where
  pub world : S
  pub registry : Registry F

-- A handler's answer, `none` where it panicked and the connection is closed without one.
abbrev pub Handler : Type 0 → Type 0 → Type 0 → Type 0
Handler S F B = HttpRequest B → Server S F → Option Response × Server S F

module _ {F : Type 0} where
  unfoldable pub new_webhook_metrics : Registry F → WebhookMetrics × Registry F
  unfolding register_counter register_gauge
  new_webhook_metrics r0 =
      let (records, r1) =
        register_gauge (prefix ++ codes "_records")
          (codes "DNS records the router reported to the last successful Records call.") [] r0 in
      let (applied, r2) =
        register_counter (prefix ++ codes "_apply_changes_total")
          (codes "Change sets applied, by outcome.") (codes "result" ∷ []) r1 in
      let (planned, r3) =
        register_counter (prefix ++ codes "_planned_endpoints_total")
          (codes "Endpoints ExternalDNS asked this provider to change, by action.")
          (codes "action" ∷ []) r2 in
      let (dropped, r4) =
        register_counter (prefix ++ codes "_dropped_endpoints_total")
          (codes "Endpoints dropped in AdjustEndpoints, by record type.") (codes "record_type" ∷ [])
          r3 in
      let (last_success, r5) =
        register_gauge (prefix ++ codes "_last_apply_success_timestamp_seconds")
          (codes "Unix time of the last change set that reached the router.") [] r4 in
      (
        record {
          records = records;
          applied = applied;
          planned = planned;
          dropped = dropped;
          last_success = last_success;
        },
        r5,
      )

module _ {S E B F : Type 0} where
  unfoldable pub new : Provider S E → Json B → Registry F → Webhook S E B × Registry F
  unfolding new_webhook_metrics
  new provider json r =
      let (metrics, r') = new_webhook_metrics r in
      (
        record {
          provider = provider;
          json = json;
          metrics = metrics;
          max_body_bytes = default_max_body_bytes;
        },
        r',
      )

module _ {S E B F : Type 0} ⦃f : Float64 F⦄ (w : Webhook S E B) where
  unfoldable pub negotiate : Handler S F B
  unfolding require_media_type
  negotiate req s = elim (require_media_type req header_accept) [
    | some refused ↦ (some refused, s)
    | none ↦ (some (json_answer (json_filter (record { include = []; exclude = [] }))), s)
  ]

  abbrev pub set_registry : (Registry F → Registry F) → Server S F → Server S F
  set_registry g s = record s { registry = g s.registry }

  abbrev pub answer_records : Result E (List Endpoint) → Server S F → Option Response × Server S F
  answer_records (err e) s = (some (rejection 500 (codes "error getting records")), s)
  answer_records (ok endpoints) s = (
    some (json_answer (json_endpoints (map some endpoints))),
    set_registry (gauge_set w.metrics.records (f.of_nat (length endpoints)) []) s,
  )

  unfoldable pub serve_records : Handler S F B
  unfolding require_media_type
  serve_records req s = elim (require_media_type req header_accept) [
    | some refused ↦ (some refused, s)
    | none ↦
        let (r, world) = w.provider.records s.world in answer_records r (record s { world = world })
  ]

  unfoldable pub count_planned : Changes → Registry F → Registry F
  count_planned changes r =
      let add =
        λ (n : ℕ) (action : Str). counter_add w.metrics.planned (f.of_nat n) (action ∷ []) in
      add (length changes.delete) (codes "delete") (
        add (length changes.update_new) (codes "update")
          (add (length changes.create) (codes "create") r))

  abbrev pub answer_apply :
      F → Result (ApplyError E) (Unit {0}) → Server S F → Option Response × Server S F
  answer_apply now (ok _) s = (
    some no_content,
    set_registry
        (λ r.
          gauge_set w.metrics.last_success now []
            (counter_inc w.metrics.applied (codes "success" ∷ []) r))
        s,
  )
  answer_apply now (err (failed e)) s = (
    some (rejection 500 (codes "error applying changes")),
    set_registry (counter_inc w.metrics.applied (codes "error" ∷ [])) s,
  )
  answer_apply now (err panicked) s = (none, s)

  abbrev pub apply_decoded : F → Changes → Server S F → Option Response × Server S F
  apply_decoded now changes s =
      let s' = set_registry (count_planned changes) s in
      let (r, world) = w.provider.apply_changes changes s'.world in
      answer_apply now r (record s' { world = world })

  -- `ApplyChanges`, with the time at its end. `applyMu` is held around the call of the
  -- provider, so its pass is one step.
  unfoldable pub serve_apply_changes : F → Handler S F B
  unfolding require_media_type count_planned
  serve_apply_changes now req s = elim (require_media_type req header_content_type) [
    | some refused ↦ (some refused, s)
    | none ↦ elim (w.json.decode_changes w.max_body_bytes req.body) [
      | err e ↦ (some (decode_rejection e), s)
      | ok changes ↦ apply_decoded now changes s
    ]
  ]

  -- `range` over the counts.
  unfoldable pub count_dropped : GoMap Str ℕ → Registry F → Registry F
  count_dropped [] r = r
  count_dropped ((record_type, count) ∷ rest) r =
      count_dropped rest (counter_add w.metrics.dropped (f.of_nat count) (record_type ∷ []) r)

  abbrev pub adjust_decoded : Pointers → Server S F → Option Response × Server S F
  adjust_decoded endpoints s =
      let (adjusted, world) = w.provider.adjust_endpoints endpoints s.world in
      (
        some (json_answer (json_endpoints adjusted)),
        record {
          world = world;
          registry = count_dropped (dropped_by_type endpoints adjusted) s.registry;
        },
      )

  unfoldable pub serve_adjust_endpoints : Handler S F B
  unfolding require_media_type count_dropped dropped_by_type
  serve_adjust_endpoints req s = elim (require_media_type req header_content_type) [
    | some refused ↦ (some refused, s)
    | none ↦ elim (require_media_type req header_accept) [
      | some refused ↦ (some refused, s)
      | none ↦ elim (w.json.decode_endpoints w.max_body_bytes req.body) [
        | err e ↦ (some (decode_rejection e), s)
        | ok endpoints ↦ adjust_decoded endpoints s
      ]
    ]
  ]

  -- `Register`: the patterns of the mux and their handlers.
  unfoldable pub routes : F → List (Str × Handler S F B)
  routes now =
      (codes "GET /{$}", negotiate)
      ∷ (codes "GET /records", serve_records)
      ∷ (codes "POST /records", serve_apply_changes now)
      ∷ (codes "POST /adjustendpoints", serve_adjust_endpoints)
      ∷ []
