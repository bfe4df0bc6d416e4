-- ===== src/Metrics/Reader.antt =====
-- A reader of label sets, as the exposition format describes them: no code of the program.
use external_dns_openwrt_nex.Prelude.{
  ℕ, zero, suc, Bool, true, false, List, [], ◌∷◌, ◌++◌, Option, none, some, eqb, if◌then◌else◌,
}
use external_dns_openwrt_nex.Strings.{Str}

infixl 5 ◌>>=◌
abbrev pub ◌>>=◌ {ℓ} : {A B : Type ℓ} → Option A → (A → Option B) → Option B
none >>= g = none
some a >>= g = g a

-- The character that a backslash and `c` stand for.
unfoldable pub reveal : ℕ → Option ℕ
reveal c =
    if eqb c b'\\'
    then some b'\\'
    else if eqb c b'n'
    then some 10
    else if eqb c b'"'
    then some b'"'
    else none

-- A label value up to its closing quote, and the rest. The flag: a backslash came just before.
unfoldable pub read_value : Bool → Str → Str → Option (Str × Str)
unfolding reveal
read_value pending out [] = none
read_value true out (c ∷ s) = do d ← reveal c; read_value false (out ++ d ∷ []) s
read_value false out (c ∷ s) =
    let escaped = read_value true out s in
    let copied = read_value false (out ++ c ∷ []) s in
    if eqb c b'"' then some (out, s) else if eqb c b'\\' then escaped else copied

-- A label name up to `="`, and the rest.
unfoldable pub read_name : Str → Str → Option (Str × Str)
read_name out [] = none
read_name out (c ∷ []) = none
read_name out (c ∷ d ∷ s) =
    let more = read_name (out ++ c ∷ []) (d ∷ s) in
    if eqb c b'=' then (if eqb d b'"' then some (out, s) else none) else more

unfoldable pub read_pair : Str → Option ((Str × Str) × Str)
unfolding read_name read_value
read_pair s = do
  (name, s') ← read_name [] s
  (value, s'') ← read_value false [] s'
  some ((name, value), s'')

-- Behind a pair: another, or the end.
abbrev pub Pairs : Type 0
Pairs = List (Str × Str) × Str

unfoldable pub read_more : (Str → Option Pairs) → List (Str × Str) → Str → Option Pairs
read_more next out [] = none
read_more next out (c ∷ s) =
    if eqb c b',' then next s else if eqb c b'}' then some (out, s) else none

-- The pairs up to the closing brace, at most so many.
unfoldable pub read_pairs : ℕ → List (Str × Str) → Str → Option Pairs
unfolding read_pair read_more
read_pairs zero out s = none
read_pairs (suc n) out s = do
  (p, s') ← read_pair s
  read_more (read_pairs n (out ++ p ∷ [])) (out ++ p ∷ []) s'

-- A label set in braces, of at most so many labels.
unfoldable pub read_labels : ℕ → Str → Option Pairs
unfolding read_pairs
read_labels n [] = none
read_labels n (c ∷ s) = if eqb c b'{' then read_pairs n [] s else none

-- The labels that are written: each name with its value, or the empty one.
abbrev pub labels : List Str → List Str → List (Str × Str)
labels [] values = []
labels (name ∷ names) [] = (name, []) ∷ labels names []
labels (name ∷ names) (value ∷ values) = (name, value) ∷ labels names values
