-- ===== src/Event/Pairing/Meaning.antt =====
-- What `check_pairing` of crates/agent-event/src/pairing.rs decides.
use rof_harness.Base.{
  ℕ, ◌+◌, ◌%◌, ◌≤◌, ◌<◌, leb, ◌≡◌, refl, ap, ap₂, sym, ◌∙◌, ◌↔◌, Bool, true, false, ◌||◌, String,
  List, [], ◌∷◌, arith, leb→le, ◌==◌, ==_iff, str_eq, str_eq_iff, any, keep, length, one_if,
  or_false,
}
use rof_harness.Event.Pairing.Sets.{all-contains, all_of_contains, contains-insert}
use rof_harness.Host.{Host}
use rof_harness.Event.Types.{
  AgentEvent, run_start, run_end, turn_start, turn_end, message_start, message_end, tool_start,
  tool_end,
}
use rof_harness.Event.Pairing.{
  contains, Seen, i32_leb, nothing_seen, see, scan, balanced, check_pairing,
}

i32_leb-leb : (a b : ℕ) → a < 2147483648 → b < 2147483648 → i32_leb a b ≡ leb a b
i32_leb-leb a b h k =
    let x : (a + 2147483648) % 4294967296 ≡ a + 2147483648 = omega (arith, h) in
    let y : (b + 2147483648) % 4294967296 ≡ b + 2147483648 = omega (arith, k) in
    rw (x, y) (ground arith)

le→leb : (a b : ℕ) → a ≤ b → leb a b ≡ true
le→leb a b h = ground arith

module _ {H : Host} where
  abbrev pub is_run_start : AgentEvent H → Bool
  is_run_start (run_start _ _) = true
  is_run_start _ = false

  abbrev pub is_run_end : AgentEvent H → Bool
  is_run_end (run_end _ _) = true
  is_run_end _ = false

  abbrev pub opens_turn : ℕ → AgentEvent H → Bool
  opens_turn n (turn_start turn) = turn == n
  opens_turn n _ = false

  abbrev pub closes_turn : ℕ → AgentEvent H → Bool
  closes_turn n (turn_end turn _ _) = turn == n
  closes_turn n _ = false

  abbrev pub opens_message : ℕ → AgentEvent H → Bool
  opens_message n (message_start id _ _) = id == n
  opens_message n _ = false

  abbrev pub closes_message : ℕ → AgentEvent H → Bool
  closes_message n (message_end id _ _ _) = id == n
  closes_message n _ = false

  abbrev pub opens_tool : String → AgentEvent H → Bool
  opens_tool n (tool_start id _ _) = str_eq id n
  opens_tool n _ = false

  abbrev pub closes_tool : String → AgentEvent H → Bool
  closes_tool n (tool_end id _ _) = str_eq id n
  closes_tool n _ = false

  -- Every identifier that some event opens is closed by some event, at whichever place, and the
  -- runs end at least as often as they start.
  pub record IsPaired (es : List (AgentEvent H)) : Type 0 where
    pub runs : length (keep is_run_start es) ≤ length (keep is_run_end es)
    pub turns : (n : ℕ) → any (opens_turn n) es ≡ true → any (closes_turn n) es ≡ true
    pub messages : (n : ℕ) → any (opens_message n) es ≡ true → any (closes_message n) es ≡ true
    pub tools : (n : String) → any (opens_tool n) es ≡ true → any (closes_tool n) es ≡ true

  see-turn_starts :
      (s : Seen) (e : AgentEvent H) (k : ℕ)
      → contains ◌==◌ k (see s e).turn_starts ≡ (opens_turn k e || contains ◌==◌ k s.turn_starts)
  unfolding see
  see-turn_starts s (turn_start n) k = contains-insert ◌==◌ ==_iff n k s.turn_starts
  see-turn_starts s _ k = refl

  see-turn_ends :
      (s : Seen) (e : AgentEvent H) (k : ℕ)
      → contains ◌==◌ k (see s e).turn_ends ≡ (closes_turn k e || contains ◌==◌ k s.turn_ends)
  unfolding see
  see-turn_ends s (turn_end n _ _) k = contains-insert ◌==◌ ==_iff n k s.turn_ends
  see-turn_ends s _ k = refl

  see-msg_starts :
      (s : Seen) (e : AgentEvent H) (k : ℕ)
      → contains ◌==◌ k (see s e).msg_starts ≡ (opens_message k e || contains ◌==◌ k s.msg_starts)
  unfolding see
  see-msg_starts s (message_start n _ _) k = contains-insert ◌==◌ ==_iff n k s.msg_starts
  see-msg_starts s _ k = refl

  see-msg_ends :
      (s : Seen) (e : AgentEvent H) (k : ℕ)
      → contains ◌==◌ k (see s e).msg_ends ≡ (closes_message k e || contains ◌==◌ k s.msg_ends)
  unfolding see
  see-msg_ends s (message_end n _ _ _) k = contains-insert ◌==◌ ==_iff n k s.msg_ends
  see-msg_ends s _ k = refl

  see-tool_starts :
      (s : Seen) (e : AgentEvent H) (k : String)
      → contains str_eq k (see s e).tool_starts
        ≡ (opens_tool k e || contains str_eq k s.tool_starts)
  unfolding see
  see-tool_starts s (tool_start n _ _) k = contains-insert str_eq str_eq_iff n k s.tool_starts
  see-tool_starts s _ k = refl

  see-tool_ends :
      (s : Seen) (e : AgentEvent H) (k : String)
      → contains str_eq k (see s e).tool_ends ≡ (closes_tool k e || contains str_eq k s.tool_ends)
  unfolding see
  see-tool_ends s (tool_end n _ _) k = contains-insert str_eq str_eq_iff n k s.tool_ends
  see-tool_ends s _ k = refl

  module _ {K : Type 0} (eq : K → K → Bool) (field : Seen → List K) (p : K → AgentEvent H → Bool)
      (step : (s : Seen) (e : AgentEvent H) (k : K)
        → contains eq k (field (see s e)) ≡ (p k e || contains eq k (field s))) where
    contains-scan :
        (s : Seen) (es : List (AgentEvent H)) (k : K)
        → contains eq k (field (scan s es)) ≡ (any (p k) es || contains eq k (field s))
    unfolding scan
    contains-scan s [] k = refl
    contains-scan s (e ∷ es) k = ground (arith, contains-scan (see s e) es k, step s e k)

  see-runs :
      (s : Seen) (e : AgentEvent H)
      → s.run_starts + 1 < 4294967296
      → s.run_ends + 1 < 4294967296
      → ((see s e).run_starts ≡ s.run_starts + one_if (is_run_start e))
        × ((see s e).run_ends ≡ s.run_ends + one_if (is_run_end e))
  unfolding see
  see-runs s (run_start _ _) h k = (omega (arith, h), omega arith)
  see-runs s (run_end _ _) h k = (omega arith, omega (arith, k))
  see-runs s _ h k = (omega arith, omega arith)

  length-keep :
      (p : AgentEvent H → Bool) (e : AgentEvent H) (es : List (AgentEvent H))
      → length (keep p (e ∷ es)) ≡ one_if (p e) + length (keep p es)
  length-keep p e es = ground arith

  -- Below the wrap, the counters count.
  scan-runs :
      (s : Seen) (es : List (AgentEvent H))
      → s.run_starts + length es < 4294967296
      → s.run_ends + length es < 4294967296
      → ((scan s es).run_starts ≡ s.run_starts + length (keep is_run_start es))
        × ((scan s es).run_ends ≡ s.run_ends + length (keep is_run_end es))
  unfolding scan
  scan-runs s [] h k = (omega arith, omega arith)
  scan-runs s (e ∷ es) h k =
      let (st, en) = see-runs s e (omega (arith, h)) (omega (arith, k)) in
      let (ih, ih') = scan-runs (see s e) es (ground (arith, h, st)) (ground (arith, k, en)) in
      (
        omega (arith, ih, st, length-keep is_run_start e es),
        omega (arith, ih', en, length-keep is_run_end e es),
      )

  length-keep-le :
      (p : AgentEvent H → Bool) (es : List (AgentEvent H)) → length (keep p es) ≤ length es
  length-keep-le p [] = omega arith
  length-keep-le p (e ∷ es) = ground (arith, length-keep-le p es)

  module _ {K : Type 0} (eq : K → K → Bool) (field : Seen → List K) (p : K → AgentEvent H → Bool)
      (step : (s : Seen) (e : AgentEvent H) (k : K)
        → contains eq k (field (see s e)) ≡ (p k e || contains eq k (field s)))
      (start : field nothing_seen ≡ []) where
    contains-scan_new :
        (es : List (AgentEvent H)) (k : K)
        → contains eq k (field (scan nothing_seen es)) ≡ any (p k) es
    unfolding contains
    contains-scan_new es k =
        contains-scan eq field p step nothing_seen es k
        ∙ ap (λ ks. any (p k) es || contains eq k ks) start
        ∙ or_false (any (p k) es)

  module _ (es : List (AgentEvent H)) where
    has_turn_start :
        (k : ℕ) → contains ◌==◌ k (scan nothing_seen es).turn_starts ≡ any (opens_turn k) es
    has_turn_start = contains-scan_new ◌==◌ (λ s. s.turn_starts) opens_turn see-turn_starts refl es

    has_turn_end :
        (k : ℕ) → contains ◌==◌ k (scan nothing_seen es).turn_ends ≡ any (closes_turn k) es
    has_turn_end = contains-scan_new ◌==◌ (λ s. s.turn_ends) closes_turn see-turn_ends refl es

    has_msg_start :
        (k : ℕ) → contains ◌==◌ k (scan nothing_seen es).msg_starts ≡ any (opens_message k) es
    has_msg_start = contains-scan_new ◌==◌ (λ s. s.msg_starts) opens_message see-msg_starts refl es

    has_msg_end :
        (k : ℕ) → contains ◌==◌ k (scan nothing_seen es).msg_ends ≡ any (closes_message k) es
    has_msg_end = contains-scan_new ◌==◌ (λ s. s.msg_ends) closes_message see-msg_ends refl es

    has_tool_start :
        (k : String) → contains str_eq k (scan nothing_seen es).tool_starts ≡ any (opens_tool k) es
    has_tool_start =
        contains-scan_new str_eq (λ s. s.tool_starts) opens_tool see-tool_starts refl es

    has_tool_end :
        (k : String) → contains str_eq k (scan nothing_seen es).tool_ends ≡ any (closes_tool k) es
    has_tool_end = contains-scan_new str_eq (λ s. s.tool_ends) closes_tool see-tool_ends refl es

    -- The test on the two counters, for fewer events than an `i32` counts.
    i32_leb-runs :
        length es < 2147483648
        → i32_leb (scan nothing_seen es).run_starts (scan nothing_seen es).run_ends
          ≡ leb (length (keep is_run_start es)) (length (keep is_run_end es))
    i32_leb-runs small =
        let s = scan nothing_seen es in
        let (st, en) = scan-runs nothing_seen es (omega (arith, small)) (omega (arith, small)) in
        let a = length-keep-le is_run_start es in
        let b = length-keep-le is_run_end es in
        i32_leb-leb s.run_starts s.run_ends (omega (arith, st, a, small))
          (omega (arith, en, b, small))
        ∙ ap₂ leb (st ∙ omega arith) (en ∙ omega arith)

    balanced-IsPaired :
        length es < 2147483648 → balanced (scan nothing_seen es) ≡ true → IsPaired es
    unfolding balanced
    balanced-IsPaired small h =
        let s = scan nothing_seen es in
        let count = i32_leb-runs small in
        record {
          runs =
              leb→le (length (keep is_run_start es)) (length (keep is_run_end es))
                (sym count ∙ ground arith);
          turns = λ n m.
              sym (has_turn_end n)
              ∙ all-contains ◌==◌ ==_iff s.turn_starts s.turn_ends (ground arith) n
                  (has_turn_start n ∙ m);
          messages = λ n m.
              sym (has_msg_end n)
              ∙ all-contains ◌==◌ ==_iff s.msg_starts s.msg_ends (ground arith) n
                  (has_msg_start n ∙ m);
          tools = λ n m.
              sym (has_tool_end n)
              ∙ all-contains str_eq str_eq_iff s.tool_starts s.tool_ends (ground arith) n
                  (has_tool_start n ∙ m);
        }

    IsPaired-balanced :
        length es < 2147483648 → IsPaired es → balanced (scan nothing_seen es) ≡ true
    unfolding balanced
    IsPaired-balanced small p =
        let s = scan nothing_seen es in
        let count = i32_leb-runs small in
        let runs : leb (length (keep is_run_start es)) (length (keep is_run_end es)) ≡ true =
          le→leb _ _ p.runs in
        let turns =
          all_of_contains ◌==◌ ==_iff s.turn_starts s.turn_ends
            (λ n m. has_turn_end n ∙ p.turns n (sym (has_turn_start n) ∙ m)) in
        let messages =
          all_of_contains ◌==◌ ==_iff s.msg_starts s.msg_ends
            (λ n m. has_msg_end n ∙ p.messages n (sym (has_msg_start n) ∙ m)) in
        let tools =
          all_of_contains str_eq str_eq_iff s.tool_starts s.tool_ends
            (λ n m. has_tool_end n ∙ p.tools n (sym (has_tool_start n) ∙ m)) in
        ground arith

  -- Of fewer than 2 ^ 31 events, which is what the counters of runs hold, the check passes exactly
  -- when every identifier of a turn, a message or a tool call that some event opens is closed by
  -- some event, before or after it, and runs end at least as often as they start.
  pub check_pairing_iff :
      (es : List (AgentEvent H)) → length es < 2147483648 → (check_pairing es ≡ true) ↔ IsPaired es
  unfolding check_pairing
  check_pairing_iff es small = (balanced-IsPaired es small, IsPaired-balanced es small)
