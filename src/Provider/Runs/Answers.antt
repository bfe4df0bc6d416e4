-- ===== src/Provider/Runs/Answers.antt =====
-- internal/provider/provider.go, `ApplyChanges`: what it answers, with the mirror on or off.
use external_dns_openwrt_nex.Prelude.{
  Bool, false, List, Option, none, some, if◌then◌else◌, Bool-cases, ◌≡◌, refl, inl, inr,
  Option-cases,
}
use external_dns_openwrt_nex.Strings.{CaseTable}
use external_dns_openwrt_nex.Exec.{Result, err, Result-cases}
use external_dns_openwrt_nex.OpenWrt.Sections.{OpenWrt}
use external_dns_openwrt_nex.OpenWrt.Apply.{Fault, Skip, apply_dns_records}
use external_dns_openwrt_nex.Provider.Endpoints.{Changes}
use external_dns_openwrt_nex.Provider.Tracker.{Tracker, nil_pointer}
use external_dns_openwrt_nex.Provider.Tracker.Observe.{observe_apply}
use external_dns_openwrt_nex.Provider.Tracker.Panics.{panics, observe_apply-panics_iff}
use external_dns_openwrt_nex.Provider.Runs.{Run, Failure, panicked, apply_changes, planned, answer}

-- The observation of the pass stops at a nil element; with the mirror off there is none.
abbrev pub stops : Option Tracker → Changes → Result Fault (List Skip) → Bool
stops none changes outcome = false
stops (some t) changes outcome = panics changes outcome t

-- What the caller of ApplyChanges gets: a panic, or success or the error as the pass had it.
abbrev pub result_of : Bool → Result Fault (List Skip) → Result Failure (Unit {0})
result_of stopped outcome = if stopped then err (panicked nil_pointer) else answer outcome

module _ ⦃u : CaseTable⦄ {S : Type 0} (o : OpenWrt S) where
  -- The pass over the router that a plan comes to.
  abbrev pub pass : Changes → S → Result Fault (List Skip) × S
  pass changes w = apply_dns_records o (planned changes).0 (planned changes).1 w

  -- ApplyChanges panics exactly where the observation of its pass over the router stops at a nil
  -- element, else answers with success or the error exactly as the pass did, and in any case leaves
  -- the router as the pass left it.
  pub apply_changes-pass :
      (changes : Changes) (s : Run S)
      → let outcome = (pass changes s.world).0 in
        ((apply_changes o changes s).0 ≡ result_of (stops s.status changes outcome) outcome)
        × ((apply_changes o changes s).1.world ≡ (pass changes s.world).1)
  unfolding apply_changes
  apply_changes-pass changes s = elim (Option-cases s.status) [
    | inl off ↦ rw (off, apply_changes) (refl, refl)
    | inr (t, on) ↦
        let outcome = (pass changes s.world).0 in
        let stopped = observe_apply-panics_iff changes outcome t in
        elim (Result-cases (observe_apply changes outcome t).0) [
          | inr (nil_pointer, e) ↦ rw (on, e, stopped.0 e, apply_changes) (refl, refl)
          | inl (p, e) ↦ elim (Bool-cases (panics changes outcome t)) [
            | inl yes_it_does ↦ cc (e, stopped.1 yes_it_does)
            | inr calm ↦ rw (on, e, calm, apply_changes) (refl, refl)
          ]
        ]
  ]
