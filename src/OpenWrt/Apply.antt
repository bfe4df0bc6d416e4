-- ===== src/OpenWrt/Apply.antt =====
-- pkg/openwrt/openwrt.go: a change set, applied in one pass.
pub mod Safe
pub mod Serving
pub mod Touches
pub mod Removals
pub mod Added
pub mod Additions
pub mod Achieves
pub mod Counted
pub mod Transaction
pub mod Atomic
pub mod Written
pub mod Trials
pub mod Examples
use external_dns_openwrt_nex.OpenWrt.Index.{
  closes_cname_loop, add, drop, first_unowned, mark_owned, new_section_index, named, owned,
  IndexedSection, SectionIndex,
}
use external_dns_openwrt_nex.OpenWrt.Types.{
  record_type_a, key, record_type_cname, validate, canonical, DnsRecord, Invalid,
}
use external_dns_openwrt_nex.Prelude.{
  length, none, not, ◌++◌, some, ◌&&◌, ◌+◌, [], eqb, is_empty, List, Option, if◌then◌else◌, ℕ, ◌∷◌,
  Bool, true, false,
}
use external_dns_openwrt_nex.Ubus.Errors.{err_no_data, plain, is_status, Error}
use external_dns_openwrt_nex.Exec.{fail, err, failing, pure, Result, ok, Exec, ◌>>=◌, ◌>>◌}
use external_dns_openwrt_nex.OpenWrt.Sections.{ownership_enabled, read_sections, OpenWrt}
use external_dns_openwrt_nex.Strings.{◌==◌, codes, CaseTable, Str}
use external_dns_openwrt_nex.Ubus.Wire.{options, Data, flag, text, Arg, Request}
use external_dns_openwrt_nex.GoMap.{GoMap, str_key, lookup}

-- Why a record was left out. The source prints a text; these are the cases, with the section in the
-- way.
pub data Reason : Type 0 where
  alias_has_cname name_has_cname alias_has_a : IndexedSection → Reason
  closes_loop : Reason

pub record Skip : Type 0 where
  pub dns : DnsRecord
  pub reason : Reason

-- What a call was for, as the context of its error says.
pub data Step : Type 0 where
  reading applying : Step
  deleting adopting : Str → Str → Step
  adding : Str → Step

pub data Fault : Type 0 where
  invalid : Invalid → Fault
  failed : Step → Error → Fault

-- The state of a pass: the world outside, and the index.
pub record Pass (S : Type 0) : Type 0 where
  pub world : S
  pub index : SectionIndex

abbrev pub config_arg : Str × Arg
config_arg = (codes "config", text (codes "dhcp"))

abbrev pub uci : Str → GoMap Str Arg → Request
uci method args = record { object = codes "uci"; method = method; args = config_arg ∷ args }

abbrev pub delete_request : Str → Request
delete_request section = uci (codes "delete") ((codes "section", text section) ∷ [])

abbrev pub apply_request : Request
apply_request = record {
  object = codes "uci";
  method = codes "apply";
  args = (codes "rollback", flag false) ∷ [];
}

module _ {S A : Type 0} where
  -- A step of the world outside.
  abbrev pub outside : Exec S Fault A → Exec (Pass S) Fault A
  outside m p = let (r, w) = m p.world in (r, record p { world = w })

module _ {S : Type 0} where
  abbrev pub change_index : (SectionIndex → SectionIndex) → Exec (Pass S) Fault (Unit {0})
  change_index f p = (ok tt, record p { index = f p.index })

abbrev pub skip_list : DnsRecord → Option Reason → List Skip
skip_list r none = []
skip_list r (some reason) = record { dns = r; reason = reason } ∷ []

module _ ⦃u : CaseTable⦄ {S : Type 0} (o : OpenWrt S) where
  -- The loop of `removeRecord` over the sections.
  unfoldable pub delete_sections : DnsRecord → List Str → Exec (Pass S) Fault (Unit {0})
  delete_sections r [] = pure tt
  delete_sections r (section ∷ rest) = do
    outside
        (failing (failed (deleting r.name section)) (o.ubus.call false (delete_request section)))
    change_index (λ i. drop i (key r) section)
    delete_sections r rest

  unfoldable pub remove_record : DnsRecord → Exec (Pass S) Fault ℕ
  remove_record r p =
      let sections = owned p.index (key r) o.ownership_id in
      if is_empty sections
      then (ok 0, p)
      else (do delete_sections r sections; pure (length sections)) p

  unfoldable pub set_owner : Str → Exec S Error Data
  set_owner section = o.ubus.call false (
      uci (codes "set") (
        (codes "section", text section)
        ∷ (codes "values", options ((codes "external_dns", o.ownership_id) ∷ []))
        ∷ []))

  -- The options of a new section.
  unfoldable pub section_values : DnsRecord → GoMap Str Str
  section_values r =
      let marker =
        if ownership_enabled o then (codes "external_dns", o.ownership_id) ∷ [] else [] in
      if r.type == record_type_cname
      then (codes "cname", r.name) ∷ (codes "target", r.value) ∷ marker
      else (codes "name", r.name) ∷ (codes "ip", r.value) ∷ marker

  unfoldable pub add_request : DnsRecord → Str → Request
  unfolding section_values
  add_request r random = uci (codes "add") (
      (codes "type", text (if r.type == record_type_cname then codes "cname" else codes "domain"))
      ∷ (codes "name", text (codes "external_dns_" ++ random))
      ∷ (codes "values", options (section_values r))
      ∷ [])

  section_of : Data → Exec S Error Str
  section_of d =
      if is_empty d.section
      then fail (plain (codes "uci add returned no section"))
      else pure d.section

  unfoldable pub create_section : DnsRecord → Exec S Error Str
  unfolding add_request section_of
  create_section r s =
      let (random, s') = o.rand_text s in
      (do d ← o.ubus.call true (add_request (canonical r) random); section_of d) s'

  -- What stands in the way of a record: the two tests of `addRecord` behind the adoption.
  unfoldable pub obstacle : SectionIndex → DnsRecord → Option Reason
  obstacle i r =
      let cnames = named i record_type_cname r.name in
      let addresses = named i record_type_a r.name in
      if r.type == record_type_cname
      then elim cnames [
        | taken ∷ _ ↦ some (alias_has_cname taken)
        | [] ↦
            if closes_cname_loop i r.name r.value
            then some closes_loop
            else elim addresses [ taken ∷ _ ↦ some (alias_has_a taken) | [] ↦ none ]
      ]
      else if r.type == record_type_a
      then elim cnames [ taken ∷ _ ↦ some (name_has_cname taken) | [] ↦ none ]
      else elim addresses [ taken ∷ _ ↦ some (alias_has_a taken) | [] ↦ none ]

  -- The section that may be adopted.
  unfoldable pub adoptable : SectionIndex → DnsRecord → Option Str
  adoptable i r = if ownership_enabled o then first_unowned i (key r) else none

  unfoldable pub adopt : DnsRecord → Str → Exec (Pass S) Fault (ℕ × Option Reason)
  adopt r section = do
    outside (failing (failed (adopting r.name section)) (set_owner section))
    change_index (λ i. mark_owned i (key r) section o.ownership_id)
    pure (1, none)

  unfoldable pub create : DnsRecord → Exec (Pass S) Fault (ℕ × Option Reason)
  create r = do
    section ← outside (failing (failed (adding r.name)) (create_section r))
    change_index (λ i. add i r section o.ownership_id)
    pure (1, none)

  unfoldable pub add_record : DnsRecord → Exec (Pass S) Fault (ℕ × Option Reason)
  add_record r p = elim (validate r) [
    | some e ↦ (err (invalid e), p)
    | none ↦
        if not (is_empty (owned p.index (key r) o.ownership_id))
        then (ok (0, none), p)
        else elim (adoptable p.index r) [
          | some section ↦ adopt r section p
          | none ↦ elim (obstacle p.index r) [
            | some reason ↦ (ok (0, some reason), p)
            | none ↦ create r p
          ]
        ]
  ]

  -- The loop over the removals, and the changes counted so far.
  unfoldable pub remove_all : List DnsRecord → ℕ → Exec (Pass S) Fault ℕ
  remove_all [] changed = pure changed
  remove_all (r ∷ rest) changed = do n ← remove_record r; remove_all rest (changed + n)

  -- The loop over the additions.
  unfoldable pub add_all : List DnsRecord → ℕ → List Skip → Exec (Pass S) Fault (ℕ × List Skip)
  add_all [] changed skipped = pure (changed, skipped)
  add_all (r ∷ rest) changed skipped = do
    outcome ← add_record r
    add_all rest (changed + outcome.0) (skipped ++ skip_list r outcome.1)

  -- Both loops.
  unfoldable pub reconcile : List DnsRecord → List DnsRecord → Exec (Pass S) Fault (ℕ × List Skip)
  reconcile remove additions = do changed ← remove_all remove 0; add_all additions changed []

  -- The apply at the end, and what its errors mean.
  unfoldable pub finish : ℕ × List Skip → Exec S Fault (List Skip)
  finish (changed, skipped) s =
      if eqb changed 0
      then (ok skipped, s)
      else (let (r, s') = o.ubus.call false apply_request s in
          elim r [
            | ok _ ↦ (ok skipped, s')
            | err e ↦
                if is_status err_no_data e then (ok skipped, s') else (err (failed applying e), s')
          ])

  unfoldable pub apply_body : List DnsRecord → List DnsRecord → Exec S Fault (List Skip)
  apply_body remove additions = do
    all ← failing (failed reading) (read_sections o.ubus)
    counted ← λ s.
        let (r, p) =
          reconcile remove additions (record { world = s; index = new_section_index all }) in
        (r, p.world)
    finish counted

  -- The deferred `Reset` of a failed pass.
  abbrev reset_failed : Result Fault (List Skip) × S → Result Fault (List Skip) × S
  reset_failed (ok skipped, s) = (ok skipped, s)
  reset_failed (err e, s) = (err e, o.ubus.reset s)

  unfoldable pub apply_dns_records : List DnsRecord → List DnsRecord → Exec S Fault (List Skip)
  apply_dns_records remove additions s =
      if is_empty remove && is_empty additions
      then (ok [], s)
      else reset_failed (apply_body remove additions s)
