-- ===== src/Config.antt =====
-- pkg/config/config.go: the configuration, filled from the environment. What reflection walks over is
-- the tree of a struct's fields here.
pub mod Parse
pub mod Leaves
pub mod Ranges
pub mod Defaults
pub mod Required
mod Examples
use external_dns_openwrt_nex.Prelude.{
  ℕ, zero, suc, ◌+◌, Bool, true, false, not, ◌&&◌, ◌||◌, List, [], ◌∷◌, ◌++◌, map, Option, none,
  some, ◌≡◌, refl, sym, ap, ◌∙◌, subst, arith, inl, inr, ◌⊎◌, ◌↔◌, ◌≢◌, ltb, leb, eqb,
  if◌then◌else◌, length, any, keep, is_empty, All, Bool-cases, Option-cases, ◌≤◌, ◌<◌,
}
use external_dns_openwrt_nex.Strings.{Str, codes, ◌==◌, join}
use external_dns_openwrt_nex.Ubus.Errors.{ℤ, pos, negsuc}
use external_dns_openwrt_nex.Config.Parse.{parse_bool, parse_int, wrap}

-- A field that holds a value: a string, a bool, an integer of so many bits, or another kind.
pub data Leaf : Type 0 where
  text : Str → Leaf
  flag : Bool → Leaf
  whole : ℕ → ℤ → Leaf
  unsupported : Str → Leaf

-- A struct in a field, or behind a pointer in one, which may be nil; the fields of a nil pointer are
-- those of the zero struct.
pub data Place : Type 0 where
  inline pointed nil : Place

-- The fields of a struct, in order. `skipped` stands for a field that is not exported, or is a
-- pointer to something else than a struct.
pub data Fields : Type 0 where
  end : Fields
  leaf : (tag : Str) → (required : Bool) → Leaf → Fields → Fields
  group : (tag : Str) → Place → Fields → Fields → Fields
  skipped : Fields → Fields

pub data ConfigError : Type 0 where
  not_set : Str → ConfigError
  no_bool : Str → ConfigError
  no_int : Str → ConfigError
  unsupported_type : Str → Str → ConfigError

-- `os.LookupEnv`, and `strings.ToUpper`.
pub record Environment : Type 0 where
  pub lookup_env : Str → Option Str
  pub to_upper : Str → Str

module _ ⦃env : Environment⦄ where
  unfoldable pub env_key : List Str → Str
  unfolding join
  env_key path = env.to_upper (join (codes "_") path)

  -- The switch over the field's kind.
  unfoldable pub assign : Str → Str → Leaf → Option ConfigError × Leaf
  assign key raw (text old) = (none, text raw)
  assign key raw (flag old) = elim (parse_bool raw) [
    | some b ↦ (none, flag b)
    | none ↦ (some (no_bool key), flag old)
  ]
  assign key raw (whole w old) = elim (parse_int raw) [
    | some z ↦ (none, whole w (wrap w z))
    | none ↦ (some (no_int key), whole w old)
  ]
  assign key raw (unsupported kind) = (some (unsupported_type key kind), unsupported kind)

  unfoldable pub set_leaf : Str → Bool → Leaf → Option ConfigError × Leaf
  unfolding assign
  set_leaf key required l = elim (env.lookup_env key) [
    | none ↦ (if required then some (not_set key) else none, l)
    | some raw ↦ assign key raw l
  ]

  abbrev pub allocated : Place → Place
  allocated inline = inline
  allocated pointed = pointed
  allocated nil = pointed

  -- After a field: its error ends the loop, and the fields behind it stay as they are.
  abbrev pub next_field :
      Option ConfigError
      → (Fields → Fields)
      → Fields
      → Option ConfigError × Fields
      → Option ConfigError × Fields
  next_field (some e) put rest bound = (some e, put rest)
  next_field none put rest bound = (bound.0, put bound.1)

  unfoldable pub bind : List Str → Fields → Option ConfigError × Fields
  unfolding set_leaf env_key
  bind path end = (none, end)
  bind path (skipped rest) = let (e, rest') = bind path rest in (e, skipped rest')
  bind path (leaf tag required l rest) =
      let (e, l') = set_leaf (env_key (path ++ tag ∷ [])) required l in
      next_field e (leaf tag required l') rest (bind path rest)
  bind path (group tag place inner rest) =
      let (e, inner') = bind (path ++ tag ∷ []) inner in
      next_field e (group tag (allocated place) inner') rest (bind path rest)

  -- `Read`, of a pointer to a struct.
  unfoldable pub read : Fields → Option ConfigError × Fields
  unfolding bind
  read fields = bind [] fields
