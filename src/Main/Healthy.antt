-- ===== src/Main/Healthy.antt =====
-- src/main.rs: which responses the health check takes for healthy.
use proxpulse_judge.Base.{
  ℕ, zero, suc, ◌+◌, ◌≤◌, ◌<◌, ◌≡◌, ◌↔◌, inl, inr, refl, sym, ap, ◌∙◌, subst, true, false, Option,
  some, [], ◌∷◌, ◌++◌, append_assoc, append-nil, arith, ltb, ◌==◌, length, length-append, is_empty,
  any, all, option_eq_iff, some_inj, Text, Bytes, codes,
}
use mathlib.Core.Bool.{true≢false}
use native.Mathlib.Decide.{dec_le}
use proxpulse_judge.Str.Basic.{is_whitespace}
use proxpulse_judge.Main.Health.{
  Probe, max_response, enough_reads, read_buf, read_loop, first_line, second_word, is_healthy,
  healthy_of, healthcheck,
}
use proxpulse_judge.Main.Reads.{received, Ended, read_loop-ends}
use proxpulse_judge.Main.StatusLine.{
  crlf, is_break, status_line, first_line-crlf, second_word-status, starts, crlf_late,
}

just_past : (n k : ℕ) → n ≤ suc k → ¬ (n ≤ k) → suc k ≡ n
just_past n k le past = omega arith

module _ (read : ℕ → Option Bytes) where
  received_le : (n k : ℕ) → n ≤ k → (more : Bytes) × (received read k ≡ received read n ++ more)
  unfolding received
  received_le zero zero le = ([], refl)
  received_le (suc n) zero le = absurd (omega arith)
  received_le n (suc k) le = elim (dec_le n k) [
    | yes before ↦
        let (more, e) = received_le n k before in
        (
          more ++ read_buf (read k),
          ap (λ s. s ++ read_buf (read k)) e
              ∙ append_assoc (received read n) more (read_buf (read k)),
        )
    | no past ↦
        ([], ap (received read) (just_past n k le past) ∙ sym (append-nil (received read n)))
  ]

  module _ (k : ℕ) (line rest : Bytes) (whole : received read k ≡ line ++ crlf rest)
      (fits : length line + 2 ≤ max_response) (no_cr : any (λ c. c == 13) line ≡ false)
      (steady : (i : ℕ) → i < k → is_empty (read_buf (read i)) ≡ false) where
    behind_line :
        (s more : Bytes)
        → s ++ more ≡ line ++ crlf rest
        → length line + 2 ≤ length s
        → (c : Bytes) × (s ≡ line ++ crlf c)
    behind_line s more e le =
        let (c, same) =
          starts s more (line ++ crlf []) rest (e ∙ sym (append_assoc line (crlf []) rest))
            (omega (arith, length-append line (crlf []))) in
        (c, same ∙ append_assoc line (crlf []) c)

    -- The line is read whole.
    reads_line : (r : Bytes) → Ended read r → (c : Bytes) × (r ≡ line ++ crlf c)
    reads_line r end = elim (dec_le k end.reads) [
      | yes all_read ↦
          let (more, e) = received_le k end.reads all_read in
          (
            rest ++ more,
            end.is_received ∙ e ∙ ap (λ s. s ++ more) whole ∙ append_assoc line (crlf rest) more,
          )
      | no part ↦
          let (more, e) = received_le end.reads k (omega arith) in
          let cut = ap (λ s. s ++ more) end.is_received ∙ sym e ∙ whole in
          elim end.reason [
            | inl long ↦ behind_line r more cut (omega arith)
            | inr (inl gone) ↦ absurd (true≢false (sym gone ∙ steady end.reads (omega arith)))
            | inr (inr found) ↦ behind_line r more cut (crlf_late r more line rest no_cr cut found)
          ]
    ]

-- A status line in ASCII, on one line, short enough to be read, with two words before the reason.
pub record IsStatus (version code reason : Text) : Type 0 where
  pub version_given : is_empty version ≡ false
  pub code_given : is_empty code ≡ false
  pub version_whole : any is_whitespace version ≡ false
  pub code_whole : any is_whitespace code ≡ false
  pub one_line : any is_break (status_line version code reason) ≡ false
  pub ascii : all (λ c. ltb c 128) (status_line version code reason) ≡ true
  pub short : length (status_line version code reason) + 2 ≤ max_response

no_return : (s : Text) → any is_break s ≡ false → any (λ c. c == 13) s ≡ false
no_return [] h = refl
no_return (c ∷ s) h = ground (arith, no_return s)

abbrev pub KeepsAscii : (Bytes → Text) → Type 0
KeepsAscii lossy = (a b : Bytes) → all (λ c. ltb c 128) a ≡ true → lossy (a ++ b) ≡ a ++ lossy b

ascii_crlf :
    (s : Bytes) → all (λ c. ltb c 128) s ≡ true → all (λ c. ltb c 128) (s ++ crlf []) ≡ true
ascii_crlf [] h = refl
ascii_crlf (c ∷ s) h = ground (arith, ascii_crlf s)

module _ (lossy : Bytes → Text) (keeps : KeepsAscii lossy) (version code reason : Text)
    (status : IsStatus version code reason) where
  is_healthy-status :
      (c : Bytes)
      → (is_healthy (lossy (status_line version code reason ++ crlf c)) ≡ true)
        ↔ (code ≡ codes "200")
  unfolding is_healthy
  is_healthy-status c =
      let line = status_line version code reason in
      let text =
        ap lossy (sym (append_assoc line (crlf []) c))
        ∙ keeps (line ++ crlf []) c (ascii_crlf line status.ascii)
        ∙ append_assoc line (crlf []) (lossy c) in
      let second =
        ap (λ t. second_word (first_line t)) text
        ∙ ap second_word (first_line-crlf line (lossy c) status.one_line)
        ∙ second_word-status version code reason status.version_given status.code_given
            status.version_whole status.code_whole in
      (
        λ h. some_inj (
            sym second
            ∙ (option_eq_iff (second_word (first_line (lossy (line ++ crlf c))))
                  (some (codes "200"))).0
                h),
        λ h.
            (option_eq_iff (second_word (first_line (lossy (line ++ crlf c))))
                (some (codes "200"))).1
              (second ∙ ap some h),
      )

  answers :
      (p : Probe) (r : Bytes)
      → p.connects ≡ true
      → p.writes ≡ true
      → read_loop p.read enough_reads 0 [] ≡ some r
      → healthcheck lossy p ≡ is_healthy (lossy r)
  answers p r on wrote run =
      unfold healthcheck in
      ap (λ b. healthy_of lossy b p.writes (read_loop p.read enough_reads 0 [])) on
      ∙ ap (λ b. healthy_of lossy true b (read_loop p.read enough_reads 0 [])) wrote
      ∙ ap (λ o. healthy_of lossy true true o) run
      ∙ unfold healthy_of in refl

  -- Where the peer takes the request and sends a status line in ASCII that fits into 1 KiB, in any
  -- number of reads, none of which is empty before the line is there, and the decoding keeps ASCII as
  -- it is, the check succeeds exactly if the status code is 200, whatever follows the line.
  pub healthcheck_iff :
      (p : Probe) (k : ℕ) (rest : Bytes)
      → p.connects ≡ true
      → p.writes ≡ true
      → received p.read k ≡ status_line version code reason ++ crlf rest
      → ((i : ℕ) → i < k → is_empty (read_buf (p.read i)) ≡ false)
      → (healthcheck lossy p ≡ true) ↔ (code ≡ codes "200")
  healthcheck_iff p k rest on wrote whole steady =
      let (r, run, ended, _) = read_loop-ends p.read in
      let (c, e) =
        reads_line p.read k (status_line version code reason) rest whole status.short
          (no_return (status_line version code reason) status.one_line) steady r ended in
      subst (λ b. (b ≡ true) ↔ (code ≡ codes "200"))
        (sym (answers p r on wrote run ∙ ap (λ t. is_healthy (lossy t)) e)) (is_healthy-status c)
