-- ===== src/Config/Leaves.antt =====
-- pkg/config/config.go: what the walk over a struct does to its leaves.
use external_dns_openwrt_nex.Prelude.{
  Bool, List, [], ◌∷◌, ◌++◌, Option, none, some, ◌≡◌, refl, sym, ap, ◌∙◌, ◌↔◌, All,
}
use external_dns_openwrt_nex.Strings.{Str}
use external_dns_openwrt_nex.Config.{
  Leaf, Place, Fields, end, leaf, group, skipped, ConfigError, Environment, env_key, set_leaf, bind,
  read, next_field, allocated,
}

module _ ⦃env : Environment⦄ where
  -- A leaf with its variable, and whether that has to be set.
  abbrev pub Variable : Type 0
  Variable = (Str × Bool) × Leaf

  -- The leaves of a struct, in the order of the fields.
  abbrev pub leaves : List Str → Fields → List Variable
  leaves path end = []
  leaves path (skipped rest) = leaves path rest
  leaves path (leaf tag required l rest) =
      ((env_key (path ++ tag ∷ []), required), l) ∷ leaves path rest
  leaves path (group tag place inner rest) = leaves (path ++ tag ∷ []) inner ++ leaves path rest

  abbrev pub next_variable :
      Option ConfigError
      → Variable
      → List Variable
      → Option ConfigError × List Variable
      → Option ConfigError × List Variable
  next_variable (some e) v rest set = (some e, v ∷ rest)
  next_variable none v rest set = (set.0, v ∷ set.1)

  -- The variables one after the other, up to the first that is refused.
  abbrev pub set_leaves : List Variable → Option ConfigError × List Variable
  set_leaves [] = (none, [])
  set_leaves (((key, required), l) ∷ rest) =
      let (e, l') = set_leaf key required l in
      next_variable e ((key, required), l') rest (set_leaves rest)

  -- Two lists of variables one behind the other.
  abbrev behind :
      Option ConfigError × List Variable
      → List Variable
      → Option ConfigError × List Variable
      → Option ConfigError × List Variable
  behind (some e, done) rest set = (some e, done ++ rest)
  behind (none, done) rest set = (set.0, done ++ set.1)

  next-behind :
      (e : Option ConfigError) (v : Variable) (xs ys : List Variable) (o : Option ConfigError)
      (done : List Variable) (set : Option ConfigError × List Variable)
      → next_variable e v (xs ++ ys) (behind (o, done) ys set)
        ≡ behind (next_variable e v xs (o, done)) ys set
  next-behind (some e) v xs ys o done set = refl
  next-behind none v xs ys (some o) done set = refl
  next-behind none v xs ys none done set = refl

  set_leaves-append :
      (xs ys : List Variable) → set_leaves (xs ++ ys) ≡ behind (set_leaves xs) ys (set_leaves ys)
  set_leaves-append [] ys = refl
  set_leaves-append (((key, required), l) ∷ xs) ys =
      let (e, l') = set_leaf key required l in
      ap (next_variable e ((key, required), l') (xs ++ ys)) (set_leaves-append xs ys)
      ∙ next-behind e ((key, required), l') xs ys (set_leaves xs).0 (set_leaves xs).1
          (set_leaves ys)

  leaves-next_leaf :
      (path : List Str) (e : Option ConfigError) (tag : Str) (required : Bool) (l : Leaf)
      (rest : Fields) (bound : Option ConfigError × Fields)
      → (
        (next_field e (leaf tag required l) rest bound).0,
        leaves path (next_field e (leaf tag required l) rest bound).1,
      )
        ≡ next_variable e
            ((env_key (path ++ tag ∷ []), required), l)
            (leaves path rest)
            (bound.0, leaves path bound.1)
  leaves-next_leaf path (some e) tag required l rest bound = refl
  leaves-next_leaf path none tag required l rest bound = refl

  leaves-next_group :
      (path : List Str) (e : Option ConfigError) (tag : Str) (place : Place) (inner rest : Fields)
      (bound : Option ConfigError × Fields)
      → (
        (next_field e (group tag place inner) rest bound).0,
        leaves path (next_field e (group tag place inner) rest bound).1,
      )
        ≡ behind
            (e, leaves (path ++ tag ∷ []) inner)
            (leaves path rest)
            (bound.0, leaves path bound.1)
  leaves-next_group path (some e) tag place inner rest bound = refl
  leaves-next_group path none tag place inner rest bound = refl

  -- `Read` sets the leaves of the struct in the order of the fields, each from its own variable, up
  -- to the first that is refused, with whose error it ends.
  pub bind-leaves :
      (path : List Str) (fields : Fields)
      → ((bind path fields).0, leaves path (bind path fields).1) ≡ set_leaves (leaves path fields)
  unfolding bind
  bind-leaves path end = refl
  bind-leaves path (skipped rest) = bind-leaves path rest
  bind-leaves path (leaf tag required l rest) =
      let (e, l') = set_leaf (env_key (path ++ tag ∷ [])) required l in
      leaves-next_leaf path e tag required l' rest (bind path rest)
      ∙ ap (next_variable e ((env_key (path ++ tag ∷ []), required), l') (leaves path rest))
          (bind-leaves path rest)
  bind-leaves path (group tag place inner rest) =
      let (e, inner') = bind (path ++ tag ∷ []) inner in
      leaves-next_group path e tag (allocated place) inner' rest (bind path rest)
      ∙ ap (behind (e, leaves (path ++ tag ∷ []) inner') (leaves path rest)) (bind-leaves path rest)
      ∙ ap (λ done. behind done (leaves path rest) (set_leaves (leaves path rest)))
          (bind-leaves (path ++ tag ∷ []) inner)
      ∙ sym (set_leaves-append (leaves (path ++ tag ∷ []) inner) (leaves path rest))

  -- A variable that gives its leaf a value, or need not.
  abbrev pub IsTaken : Variable → Type 0
  IsTaken ((key, required), l) = (set_leaf key required l).0 ≡ none

  next_variable-none :
      (e : Option ConfigError) (v : Variable) (rest : List Variable)
      (set : Option ConfigError × List Variable)
      → ((next_variable e v rest set).0 ≡ none) ↔ ((e ≡ none) × (set.0 ≡ none))
  next_variable-none (some e) v rest set = (λ h. cc, λ h. cc)
  next_variable-none none v rest set = (λ h. (refl, h), λ h. h.1)

  set_leaves-none : (vs : List Variable) → ((set_leaves vs).0 ≡ none) ↔ All IsTaken vs
  set_leaves-none [] = (λ h. tt, λ h. refl)
  set_leaves-none (((key, required), l) ∷ vs) =
      let (e, l') = set_leaf key required l in
      let step = next_variable-none e ((key, required), l') vs (set_leaves vs) in
      let later = set_leaves-none vs in
      (λ h. let (now, rest) = step.0 h in (now, later.0 rest), λ h. step.1 (h.0, later.1 h.1))

  -- `Read` succeeds exactly if each leaf of the struct, by itself, takes what its variable holds, or
  -- has none and need not have one.
  pub read-ok_iff : (fields : Fields) → ((read fields).0 ≡ none) ↔ All IsTaken (leaves [] fields)
  unfolding read
  read-ok_iff fields =
      let same = ap (λ x. x.0) (bind-leaves [] fields) in
      let all = set_leaves-none (leaves [] fields) in
      (λ h. all.0 (sym same ∙ h), λ h. same ∙ all.1 h)
