-- ===== src/Log/Recovery.antt =====
-- The log file of crates/agent-log across a crash: what `read_log` returns and `LogWriter::open`
-- keeps after any number of complete appends and one torn one.
pub mod Bytes
use mathlib.Core.List.{append_assoc, append-nil}
use rof_harness.Base.{
  ℕ, suc, ◌+◌, ◌≤◌, ◌≡◌, refl, sym, ap, ◌∙◌, ◌≢◌, ◌⊎◌, inl, inr, String, Option, none, some, List,
  [], ◌∷◌, ◌++◌, arith,
}
use rof_harness.Host.{Host}
use rof_harness.Log.Types.{Item, Codec, IoResult, ok, err, ◌>>=◌}
use rof_harness.Log.Writer.{lf, append, append_all, append_item, open_log}
use rof_harness.Log.Reader.{chunks_from, split_lf, parse_one, parse_chunks, validate_log, read_log}
use rof_harness.Log.Validity.{IsLog, validate_log_iff}
use Bytes.{
  IsPlain, lines, split_lf-line, split_lf-plain, strip_cr-plain, open_log-lines, lines-append,
  IsPlain-append,
}

-- What the log relies on of `serde_json` for an item: its JSON has no control character (they are
-- escaped), is not empty, and no proper prefix of it parses. That it parses back is not a law, since
-- `serde_json` reads neither every float nor any depth of nesting back: the theorems ask it of the
-- items that were written.
pub record CodecLaws {H : Host} (codec : Codec H) : Type 0 where
  pub render_plain : (i : Item H) (b : List ℕ) → codec.render i ≡ ok b → IsPlain b
  pub render_nonempty : (i : Item H) (b : List ℕ) → codec.render i ≡ ok b → b ≢ []
  pub parse_prefix :
      (i : Item H) (p q : List ℕ)
      → codec.render i ≡ ok (p ++ q)
      → q ≢ []
      → (e : String) × (codec.parse p ≡ err e)

module _ {H : Host} (codec : Codec H) where
  -- The bytes are the item's JSON and read back as the item.
  abbrev pub RoundTrips : Item H → List ℕ → Type 0
  RoundTrips i b = (codec.render i ≡ ok b) × (codec.parse b ≡ ok i)

  -- Each item and the bytes of its line.
  abbrev pub IsWritten : List (Item H) → List (List ℕ) → Type 0
  IsWritten [] [] = Unit {0}
  IsWritten [] (b ∷ bs) = ⊥
  IsWritten (i ∷ is) [] = ⊥
  IsWritten (i ∷ is) (b ∷ bs) = RoundTrips i b × IsWritten is bs

  append_all-lines :
      (file : List ℕ) (is : List (Item H)) (bs : List (List ℕ))
      → IsWritten is bs
      → append_all codec file is ≡ ok (file ++ lines bs)
  unfolding append_all append lines
  append_all-lines file [] [] w = ap ok (sym (append-nil file))
  append_all-lines file [] (b ∷ bs) w = elim w [ ]
  append_all-lines file (i ∷ is) [] w = elim w [ ]
  append_all-lines file (i ∷ is) (b ∷ bs) ((r, _), w) =
      rw (r, append)
        (append_all-lines (file ++ (b ++ lf ∷ [])) is bs w
          ∙ ap ok (
              append_assoc file (b ++ lf ∷ []) (lines bs)
              ∙ ap (◌++◌ file) (append_assoc b (lf ∷ []) (lines bs))))

chunks-line :
    (n : ℕ) (b : List ℕ) (rest : List (List ℕ))
    → IsPlain b
    → b ≢ []
    → chunks_from n (b ∷ rest) ≡ (n, b) ∷ chunks_from (suc n) rest
unfolding chunks_from
chunks-line n [] rest plain h = absurd (h refl)
chunks-line n (c ∷ cs) rest plain h = rw (strip_cr-plain (c ∷ cs) plain) refl

module _ {H : Host} (codec : Codec H) (laws : CodecLaws codec) where
  -- The rest of a file after its last line: nothing, or bytes that do not parse.
  abbrev IsTorn : List ℕ → Type 0
  IsTorn p = (p ≡ []) ⊎ ((e : String) × (codec.parse p ≡ err e))

  parse-torn :
      (n : ℕ) (p : List ℕ)
      → IsPlain p
      → IsTorn p
      → parse_chunks codec (chunks_from n (split_lf p)) ≡ ok []
  unfolding parse_chunks chunks_from split_lf
  parse-torn n [] plain t = refl
  parse-torn n (c ∷ cs) plain t =
      rw (split_lf-plain (c ∷ cs) plain, chunks-line n (c ∷ cs) [] plain (λ e. cc))
        (elim t [ inl e ↦ absurd (cc) | inr (e, h) ↦ rw (h, parse_one) refl ])

  -- The last piece of a file, where its line is complete but for the LF.
  parse_unterminated :
      (n : ℕ) (i : Item H) (b : List ℕ)
      → RoundTrips codec i b
      → parse_chunks codec (chunks_from n (split_lf b)) ≡ ok (i ∷ [])
  unfolding parse_chunks chunks_from
  parse_unterminated n i b (r, back) =
      let plain = laws.render_plain i b r in
      rw
        (
          split_lf-plain b plain,
          chunks-line n b [] plain (laws.render_nonempty i b r),
          back,
          parse_one,
        )
        refl

  parse-lines :
      (n : ℕ) (is js : List (Item H)) (bs : List (List ℕ)) (p : List ℕ)
      → IsWritten codec is bs
      → ((m : ℕ) → parse_chunks codec (chunks_from m (split_lf p)) ≡ ok js)
      → parse_chunks codec (chunks_from n (split_lf (lines bs ++ p))) ≡ ok (is ++ js)
  unfolding parse_chunks chunks_from lines
  parse-lines n [] js [] p w t = t n
  parse-lines n [] js (b ∷ bs) p w t = elim w [ ]
  parse-lines n (i ∷ is) js [] p w t = elim w [ ]
  parse-lines n (i ∷ is) js (b ∷ bs) p ((r, back), w) t =
      let b_plain = laws.render_plain i b r in
      rw
        (
          append_assoc b (lf ∷ lines bs) p,
          split_lf-line b (lines bs ++ p) b_plain,
          chunks-line n b (split_lf (lines bs ++ p)) b_plain (laws.render_nonempty i b r),
          back,
          parse_one,
          parse-lines (suc n) is js bs p w t,
        )
        refl

  read-lines :
      (is js : List (Item H)) (bs : List (List ℕ)) (p : List ℕ)
      → IsWritten codec is bs
      → ((m : ℕ) → parse_chunks codec (chunks_from m (split_lf p)) ≡ ok js)
      → IsLog (is ++ js)
      → read_log codec (lines bs ++ p) ≡ ok (is ++ js)
  unfolding read_log
  read-lines is js bs p w t v =
      rw (parse-lines 1 is js bs p w t, (validate_log_iff (is ++ js)).1 v) refl

  read_torn :
      (is : List (Item H)) (bs : List (List ℕ)) (p : List ℕ)
      → IsWritten codec is bs
      → IsLog is
      → IsPlain p
      → IsTorn p
      → read_log codec (lines bs ++ p) ≡ ok is
  read_torn is bs p w v plain t =
      read-lines is [] bs p w (λ m. parse-torn m p plain t) (rw (append-nil is) v)
      ∙ ap ok (append-nil is)

  IsWritten-snoc :
      (is : List (Item H)) (bs : List (List ℕ)) (j : Item H) (b : List ℕ)
      → IsWritten codec is bs
      → RoundTrips codec j b
      → IsWritten codec (is ++ j ∷ []) (bs ++ b ∷ [])
  IsWritten-snoc [] [] j b w r = (r, tt)
  IsWritten-snoc [] (c ∷ cs) j b w r = elim w [ ]
  IsWritten-snoc (i ∷ is) [] j b w r = elim w [ ]
  IsWritten-snoc (i ∷ is) (c ∷ cs) j b (s, w) r = (s, IsWritten-snoc is cs j b w r)

  append_item_lem :
      (file : Option (List ℕ)) (j : Item H) (b : List ℕ)
      → codec.render j ≡ ok b
      → append_item codec file j ≡ ok (open_log file ++ lines (b ∷ []))
  unfolding append_item append lines
  append_item_lem file j b r = rw r refl

  -- Under the laws of the codec, appending items that read back and make a valid log succeeds; if the next
  -- append then crashes and leaves a proper prefix of its line, reading gives exactly the items
  -- whose append was complete, with and without the torn tail, and reopening leaves exactly their
  -- bytes.
  pub crash_recovery :
      (is : List (Item H)) (bs : List (List ℕ)) (i : Item H) (p q : List ℕ)
      → IsWritten codec is bs
      → IsLog is
      → codec.render i ≡ ok (p ++ q)
      → q ≢ []
      → (append_all codec [] is ≡ ok (lines bs))
        × (read_log codec (lines bs) ≡ ok is)
        × (read_log codec (lines bs ++ p) ≡ ok is)
        × (open_log (some (lines bs ++ p)) ≡ lines bs)
  crash_recovery is bs i p q w v r n =
      let plain = IsPlain-append p q (laws.render_plain i (p ++ q) r) in
      (
        append_all-lines codec [] is bs w,
        ap (read_log codec) (sym (append-nil (lines bs))) ∙ read_torn is bs [] w v tt (inl refl),
        read_torn is bs p w v plain (inr (laws.parse_prefix i p q r n)),
        open_log-lines bs p plain,
      )

  -- Under the laws of the codec, if an append crashes and leaves a prefix of its line behind
  -- complete lines, the next append succeeds, and the log then reads as the items of those lines
  -- and the new one, provided that these read back and make a valid log.
  pub append_after_crash :
      (is : List (Item H)) (bs : List (List ℕ)) (i j : Item H) (p q b : List ℕ)
      → IsWritten codec is bs
      → codec.render i ≡ ok (p ++ q)
      → RoundTrips codec j b
      → IsLog (is ++ j ∷ [])
      → (file : List ℕ) × (append_item codec (some (lines bs ++ p)) j ≡ ok file)
        × (read_log codec file ≡ ok (is ++ j ∷ []))
  append_after_crash is bs i j p q b w r rj v =
      let plain = IsPlain-append p q (laws.render_plain i (p ++ q) r) in
      let file = lines (bs ++ b ∷ []) in
      (
        file,
        append_item_lem (some (lines bs ++ p)) j b rj.0
            ∙ ap (λ f. ok (f ++ lines (b ∷ []))) (open_log-lines bs p plain)
            ∙ ap ok (sym (lines-append bs (b ∷ []))),
        ap (read_log codec) (sym (append-nil file))
            ∙ read_torn (is ++ j ∷ []) (bs ++ b ∷ []) [] (IsWritten-snoc is bs j b w rj) v tt
                (inl refl),
      )

  -- Under the laws of the codec, a last line that lost only its LF is complete JSON: reading
  -- returns its item after those of the lines before it, where these read back and make a valid log, but
  -- reopening drops it.
  pub unterminated_line :
      (is : List (Item H)) (bs : List (List ℕ)) (i : Item H) (b : List ℕ)
      → IsWritten codec is bs
      → RoundTrips codec i b
      → IsLog (is ++ i ∷ [])
      → (read_log codec (lines bs ++ b) ≡ ok (is ++ i ∷ []))
        × (open_log (some (lines bs ++ b)) ≡ lines bs)
  unterminated_line is bs i b w r v = (
    read-lines is (i ∷ []) bs b w (λ m. parse_unterminated m i b r) v,
    open_log-lines bs b (laws.render_plain i b r.0),
  )
