-- ===== src/Provider/Runs.antt =====
-- internal/provider/provider.go: the three calls of a run, with the router and the tracker. A
-- provider without a tracker, whose mirror is switched off, has `none` for it.
pub mod Answers
use external_dns_openwrt_nex.Prelude.{List, ◌∷◌, ◌++◌, Option, none, some}
use external_dns_openwrt_nex.Strings.{CaseTable}
use external_dns_openwrt_nex.Exec.{Exec, Result, ok, err}
use external_dns_openwrt_nex.Ubus.Errors.{Error}
use external_dns_openwrt_nex.OpenWrt.Sections.{OpenWrt, get_dns_records}
use external_dns_openwrt_nex.OpenWrt.Types.{DnsRecord}
use external_dns_openwrt_nex.OpenWrt.Apply.{Fault, Skip, apply_dns_records}
use external_dns_openwrt_nex.Provider.Endpoints.{
  Endpoint, Pointers, Changes, endpoints_to_dns_records, dns_records_to_endpoints,
}
use external_dns_openwrt_nex.Provider.Adjust.{adjust}
use external_dns_openwrt_nex.Provider.CancelOut.{cancel_out}
use external_dns_openwrt_nex.Provider.Tracker.{Tracker, StatusRecord, Panic}
use external_dns_openwrt_nex.Provider.Tracker.Observe.{
  observe_records, observe_desired, observe_apply, Published,
}

-- The state of a provider, and the snapshots it has published, the latest first.
pub record Run (S : Type 0) : Type 0 where
  pub world : S
  pub status : Option Tracker
  pub published : List (List StatusRecord)

-- Why a change set is not answered with success.
pub data Failure : Type 0 where
  refused : Fault → Failure
  panicked : Panic → Failure

abbrev log : Published → List (List StatusRecord) → List (List StatusRecord)
log none published = published
log (some records) published = records ∷ published

abbrev pub answer : Result Fault (List Skip) → Result Failure (Unit {0})
answer (ok skipped) = ok tt
answer (err e) = err (refused e)

-- The result of a change set whose observation has this result.
abbrev pub observed :
    {S : Type 0}
    → Result Fault (List Skip)
    → Run S
    → Result Panic Published × Tracker
    → Result Failure (Unit {0}) × Run S
observed outcome s (ok p, t) =
    (answer outcome, record s { status = some t; published = log p s.published })
observed outcome s (err e, t) = (err (panicked e), record s { status = some t })

module _ ⦃u : CaseTable⦄ where
  -- The two lists of records that a plan comes to.
  unfoldable pub planned : Changes → List DnsRecord × List DnsRecord
  planned changes =
      cancel_out
        (endpoints_to_dns_records changes.delete ++ endpoints_to_dns_records changes.update_old)
        (endpoints_to_dns_records changes.create ++ endpoints_to_dns_records changes.update_new)

module _ ⦃u : CaseTable⦄ {S : Type 0} where
  unfoldable pub adjust_endpoints : Pointers → Run S → List Endpoint × Run S
  adjust_endpoints endpoints s =
      let (adjusted, rejected) = adjust endpoints in
      elim s.status [
        | none ↦ (adjusted, s)
        | some t ↦
            let (p, t') = observe_desired adjusted rejected t in
            (adjusted, record s { status = some t'; published = log p s.published })
      ]

module _ ⦃u : CaseTable⦄ {S : Type 0} (o : OpenWrt S) where
  unfoldable pub apply_changes : Changes → Exec (Run S) Failure (Unit {0})
  unfolding planned
  apply_changes changes s =
      let lists = planned changes in
      let (outcome, w) = apply_dns_records o lists.0 lists.1 s.world in
      let s' = record s { world = w } in
      elim s.status [
        | none ↦ (answer outcome, s')
        | some t ↦ observed outcome s' (observe_apply changes outcome t)
      ]

  abbrev track_records : List Endpoint → Option Tracker → Option Tracker
  track_records endpoints none = none
  track_records endpoints (some t) = some (observe_records endpoints t)

  unfoldable pub records : Exec (Run S) Error (List Endpoint)
  records s =
      let (r, w) = get_dns_records o s.world in
      elim r [
        | err e ↦ (err e, record s { world = w })
        | ok found ↦
            let endpoints = dns_records_to_endpoints found in
            (ok endpoints, record s { world = w; status = track_records endpoints s.status })
      ]
