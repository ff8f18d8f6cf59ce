-- ===== src/Examples/OneLine.antt =====
-- A codec that knows one line: the Header `{}` of an otherwise empty log.
use rof_harness.Base.{
  ℕ, suc, zero, ◌≡◌, refl, ◌≢◌, String, Option, none, some, List, [], ◌∷◌, ◌++◌, arith,
}
use rof_harness.Host.{plain_host}
use rof_harness.Log.Types.{Item, ItemKind, header, IoResult, ok, err, Codec}
use rof_harness.Log.Recovery.{CodecLaws}

abbrev pub first : Item plain_host
first = record { seq = 1; id = ""; parent_id = none; recorded_at = 0; kind = header 1 "" "" "" }

abbrev made : ℕ → String → Option String → ℕ → ItemKind plain_host → Item plain_host
made n i p r k = record { seq = n; id = i; parent_id = p; recorded_at = r; kind = k }

abbrev pub view :
    (n : ℕ) (i : String) (p : Option String) (r : ℕ) (k : ItemKind plain_host)
    → Option (made n i p r k ≡ first)
view (suc zero) String.[] none zero (header (suc zero) String.[] String.[] String.[]) = some refl
view _ _ _ _ _ = none

abbrev pub line : List ℕ
line = 123 ∷ 125 ∷ []

abbrev render_of : {i : Item plain_host} → Option (i ≡ first) → IoResult (List ℕ)
render_of none = err "not the header"
render_of (some e) = ok line

abbrev parse_line : List ℕ → IoResult (Item plain_host)
parse_line [] = err "empty"
parse_line (b ∷ []) = err "short"
parse_line (b ∷ c ∷ []) = ok first
parse_line (b ∷ c ∷ d ∷ bs) = err "long"

abbrev pub one_line : Codec plain_host
one_line = record {
  render = λ i. render_of {i = i} (view i.seq i.id i.parent_id i.recorded_at i.kind);
  parse = parse_line;
}

ok_line :
    (i : Item plain_host) (v : Option (i ≡ first)) (b : List ℕ)
    → render_of {i = i} v ≡ ok b
    → (b ≡ line) × (i ≡ first)
ok_line i none b h = cc
ok_line i (some e) b h = (cc, e)

rendered : (i : Item plain_host) (b : List ℕ) → one_line.render i ≡ ok b → (b ≡ line) × (i ≡ first)
rendered i b h = ok_line i (view i.seq i.id i.parent_id i.recorded_at i.kind) b h

prefix_fails : (p q : List ℕ) → p ++ q ≡ line → q ≢ [] → (e : String) × (parse_line p ≡ err e)
prefix_fails [] q h n = ("empty", refl)
prefix_fails (b ∷ []) q h n = ("short", refl)
prefix_fails (b ∷ c ∷ []) [] h n = absurd (n refl)
prefix_fails (b ∷ c ∷ []) (d ∷ q) h n = cc
prefix_fails (b ∷ c ∷ d ∷ p) q h n = ("long", refl)

pub one_line-laws : CodecLaws one_line
one_line-laws = record {
  render_plain = λ i b h. let (e, _) = rendered i b h in rw e (omega arith, (omega arith, tt));
  render_nonempty = λ i b h n. let (e, _) = rendered i b h in cc;
  parse_prefix = λ i p q h n. prefix_fails p q (rendered i (p ++ q) h).0 n;
}
