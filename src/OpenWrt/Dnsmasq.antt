-- ===== src/OpenWrt/Dnsmasq.antt =====
-- What dnsmasq starts with and serves: no two CNAMEs for one alias, no CNAME loop, and no address
-- next to a CNAME, over the records of the dhcp sections. The tests of `addRecord`
-- (pkg/openwrt/openwrt.go) are there to keep this.
use external_dns_openwrt_nex.Prelude.{
  suc, sym, if◌then◌else◌, subst, ◌&&◌, inl, inr, keep, ◌<◌, ◌∷◌, ◌⊎◌, Bool, [], arith, length,
  ◌++◌, ◌≡◌, ◌≤◌, List, ℕ,
}
use external_dns_openwrt_nex.OpenWrt.Types.{record_type_a, record_type_cname}
use external_dns_openwrt_nex.Strings.{◌==◌, Str}
use external_dns_openwrt_nex.Strings.Laws.{eq_iff}
use mathlib.Core.List.{Memᴰ}
use mathlib.Core.List.Memᴰ

-- A record, without its section and its owner.
pub record Served : Type 0 where
  pub type : Str
  pub name : Str
  pub value : Str

abbrev pub serves : Str → Str → Served → Bool
serves type name r = r.type == type && r.name == name

-- How many records of a type a name has.
abbrev pub tally : Str → Str → List Served → ℕ
tally type name rs = length (keep (serves type name) rs)

-- The walks along a relation that end at `goal`.
pub data Star (E : Str → Str → Type 0) (goal : Str) : Str → Type 0 where
  arrive : Star E goal goal
  step : {a b : Str} → E a b → Star E goal b → Star E goal a

pub Star-trans : {E : Str → Str → Type 0} {c b a : Str} → Star E b a → Star E c b → Star E c a
Star-trans arrive w = w
Star-trans (step e v) w = step e (Star-trans v w)

pub Star-map :
    {E F : Str → Str → Type 0} {b a : Str} → ((x y : Str) → E x y → F x y) → Star E b a → Star F b a
Star-map f arrive = arrive
Star-map f (step {a = x} {b = y} e v) = step (f x y e) (Star-map f v)

-- A CNAME that leads from one name to another.
pub record Alias (rs : List Served) (from to : Str) : Type 0 where
  pub served : Served
  pub listed : Memᴰ served rs
  pub cname : served.type ≡ record_type_cname
  pub alias : served.name ≡ from
  pub target : served.value ≡ to

pub record IsSafe (rs : List Served) : Type 0 where
  pub one_cname : (n : Str) → tally record_type_cname n rs ≤ 1
  pub no_loop : (a b : Str) → Alias rs a b → ¬ Star (Alias rs) a b
  pub apart : (n : Str) → 0 < tally record_type_cname n rs → tally record_type_a n rs ≡ 0

-- One list comes from another by leaving records out.
pub data Sub {ℓ} {A : Type ℓ} : List A → List A → Type ℓ where
  stop : Sub [] []
  both : {xs ys : List A} (x : A) → Sub xs ys → Sub (x ∷ xs) (x ∷ ys)
  skip : {xs ys : List A} (x : A) → Sub xs ys → Sub xs (x ∷ ys)

pub mem-Sub {ℓ} : {A : Type ℓ} {xs ys : List A} {a : A} → Sub xs ys → Memᴰ a xs → Memᴰ a ys
mem-Sub stop m = m
mem-Sub (both x s) m = elim (Memᴰ.cases_cons m) [
  | inl e ↦ Memᴰ.head e
  | inr t ↦ Memᴰ.tail (mem-Sub s t)
]
mem-Sub (skip x s) m = Memᴰ.tail (mem-Sub s m)

tally-Sub : (t n : Str) {xs ys : List Served} → Sub xs ys → tally t n xs ≤ tally t n ys
tally-Sub t n stop = omega arith
tally-Sub t n (both x s) = ground (arith, tally-Sub t n s)
tally-Sub t n (skip x s) = ground (arith, tally-Sub t n s)

Alias-Sub : {xs ys : List Served} → Sub xs ys → (a b : Str) → Alias xs a b → Alias ys a b
Alias-Sub s a b l = record {
  served = l.served;
  listed = mem-Sub s l.listed;
  cname = l.cname;
  alias = l.alias;
  target = l.target;
}

-- Leaving records out keeps dnsmasq going.
pub IsSafe-Sub : {xs ys : List Served} → Sub xs ys → IsSafe ys → IsSafe xs
IsSafe-Sub s h = record {
  one_cname = λ n. omega (arith, h.one_cname n, tally-Sub record_type_cname n s);
  no_loop = λ a b l w. h.no_loop a b (Alias-Sub s a b l) (Star-map (Alias-Sub s) w);
  apart = λ n p. omega (
    arith,
    h.apart n (omega (arith, tally-Sub record_type_cname n s)),
    tally-Sub record_type_a n s,
  );
}

-- A record that may join the others.
pub record Joins (r : Served) (rs : List Served) : Type 0 where
  pub free_alias : r.type ≡ record_type_cname → tally record_type_cname r.name rs ≡ 0
  pub no_way_back : r.type ≡ record_type_cname → ¬ Star (Alias rs) r.name r.value
  pub no_address : r.type ≡ record_type_cname → tally record_type_a r.name rs ≡ 0
  pub no_cname : r.type ≡ record_type_a → tally record_type_cname r.name rs ≡ 0

tally-middle :
    (t n : Str) (xs : List Served) (r : Served) (ys : List Served)
    → tally t n (xs ++ (r ∷ ys))
      ≡ (if serves t n r then suc (tally t n (xs ++ ys)) else tally t n (xs ++ ys))
tally-middle t n [] r ys = ground arith
tally-middle t n (x ∷ xs) r ys = ground (arith, tally-middle t n xs r ys)

module _ (xs : List Served) (r : Served) (ys : List Served) (j : Joins r (xs ++ ys)) where
  abbrev before : List Served
  before = xs ++ ys

  abbrev after : List Served
  after = xs ++ (r ∷ ys)

  mem-middle : (s : Served) → Memᴰ s after → Memᴰ s before ⊎ (s ≡ r)
  mem-middle s m = elim (Memᴰ.append_cases xs m) [
    | inl l ↦ inl (Memᴰ.append_left ys l)
    | inr k ↦ elim (Memᴰ.cases_cons k) [ inl e ↦ inr e | inr t ↦ inl (Memᴰ.append_right xs t) ]
  ]

  -- An alias afterwards is one before, or the new one.
  Alias-middle :
      (a b : Str)
      → Alias after a b
      → Alias before a b ⊎ (r.type ≡ record_type_cname) × (r.name ≡ a) × (r.value ≡ b)
  Alias-middle a b l = elim (mem-middle l.served l.listed) [
    | inl m ↦ inl (record {
      served = l.served;
      listed = m;
      cname = l.cname;
      alias = l.alias;
      target = l.target;
    })
    | inr e ↦ inr (
      subst (λ (s : Served). s.type ≡ record_type_cname) e l.cname,
      subst (λ (s : Served). s.name ≡ a) e l.alias,
      subst (λ (s : Served). s.value ≡ b) e l.target,
    )
  ]

  -- A walk afterwards is one before, or goes to the new alias first and from its target last.
  Star-middle :
      {goal from : Str}
      → Star (Alias after) goal from
      → Star (Alias before) goal from
        ⊎ (r.type ≡ record_type_cname)
          × Star (Alias before) r.name from
          × Star (Alias before) goal r.value
  Star-middle arrive = inl arrive
  Star-middle {goal} (step {a = x} {b = y} l w) = elim (Star-middle w) [
    | inl v ↦ elim (Alias-middle x y l) [
      | inl l' ↦ inl (step l' v)
      | inr (t, n, e) ↦ inr (
        t,
        subst (Star (Alias before) r.name) n arrive,
        subst (Star (Alias before) goal) (sym e) v,
      )
    ]
    | inr (t, v, v') ↦ elim (Alias-middle x y l) [
      | inl l' ↦ inr (t, step l' v, v')
      | inr (_, n, e) ↦ inr (t, subst (Star (Alias before) r.name) n arrive, v')
    ]
  ]

  no_loop_after : IsSafe before → (a b : Str) → Alias after a b → ¬ Star (Alias after) a b
  no_loop_after h a b l w = elim (Star-middle (step l w)) [
    | inr (t, v, v') ↦ j.no_way_back t (Star-trans v' v)
    | inl whole ↦ elim (Alias-middle a b l) [
      | inl l' ↦ elim (Star-middle w) [
        | inl v ↦ h.no_loop a b l' v
        | inr (t, v, v') ↦ j.no_way_back t (Star-trans v' (step l' v))
      ]
      | inr (t, n, e) ↦ elim (Star-middle w) [
        | inl v ↦ j.no_way_back t (
            subst (λ x. Star (Alias before) x r.value) (sym n)
              (subst (λ x. Star (Alias before) a x) (sym e) v))
        | inr (_, v, v') ↦ j.no_way_back t (subst (λ x. Star (Alias before) x r.value) (sym n) v')
      ]
    ]
  ]

  -- A record that may join, wherever it is put, keeps dnsmasq going.
  pub IsSafe-join : IsSafe before → IsSafe after
  IsSafe-join h = record {
    one_cname = λ n. ground (
      arith,
      h.one_cname n,
      tally-middle record_type_cname n xs r ys,
      eq_iff r.type record_type_cname,
      eq_iff r.name n,
      j.free_alias,
    );
    no_loop = no_loop_after h;
    apart = λ n p. ground (
      arith,
      h.apart n,
      tally-middle record_type_cname n xs r ys,
      tally-middle record_type_a n xs r ys,
      eq_iff r.type record_type_cname,
      eq_iff r.type record_type_a,
      eq_iff r.name n,
      j.no_address,
      j.no_cname,
    );
  }
