-- ===== src/Actions/Split.antt =====
-- Splitting a command line (crates/ipn-gui/src/actions.rs: `tokenize`).
use nullgate.Common.{
  ℕ, ◌≡◌, ◌≢◌, ◌↔◌, refl, ap, ◌∙◌, sym, Bool, true, false, not, ◌||◌, none, List, [], ◌∷◌, ◌++◌,
  arith, ◌==◌, Bool-cases, inl, inr,
}
use nullgate.Common.Text.{Text, is_whitespace, All, IsBlank, IsInk}
use nullgate.Common.Results.{err}
use mathlib.Core.List.{append_assoc, append-nil}
use nullgate.Actions.{
  contains_text, ip_mark, DeviceAction, MemberView, RunError, run_action, spawn, Scan, scan_start,
  scan_char, scan_all, scanned, tokenize,
}

-- No double quote in the argument.
abbrev pub IsPlain : Text → Type 0
IsPlain = All (λ c. (c == 34) ≡ false)

abbrev pub AllPlain : List Text → Type 0
AllPlain [] = Unit
AllPlain (a ∷ args) = IsPlain a × AllPlain args

-- The command line that has each argument in double quotes, with a space after it.
abbrev pub quote_all : List Text → Text
quote_all [] = []
quote_all (a ∷ args) = 34 ∷ (a ++ (34 ∷ 32 ∷ quote_all args))

-- Within double quotes.
abbrev inside : List Text → Text → Scan
inside out cur = record { out = out; cur = cur; quoted = true; started = true }

-- After the closing quote.
abbrev closed : List Text → Text → Scan
closed out cur = record { out = out; cur = cur; quoted = false; started = true }

abbrev between : List Text → Scan
between out = record { out = out; cur = []; quoted = false; started = false }

scan_char-inside :
    (c : ℕ) (out : List Text) (cur : Text)
    → (c == 34) ≡ false
    → scan_char c (inside out cur) ≡ inside out (cur ++ c ∷ [])
unfolding scan_char
scan_char-inside c out cur h = ground arith

scan_all-inside :
    (a line : Text) (out : List Text) (cur : Text)
    → IsPlain a
    → scan_all (a ++ line) (inside out cur) ≡ scan_all line (inside out (cur ++ a))
unfolding scan_all
scan_all-inside [] line out cur h = rw (append-nil cur) refl
scan_all-inside (c ∷ a) line out cur h =
    ap (scan_all (a ++ line)) (scan_char-inside c out cur h.0)
    ∙ scan_all-inside a line out (cur ++ c ∷ []) h.1
    ∙ ap (λ t. scan_all line (inside out t)) (append_assoc cur (c ∷ []) a)

scan_all-quoted :
    (a line : Text) (out : List Text)
    → IsPlain a
    → scan_all (34 ∷ (a ++ (34 ∷ 32 ∷ line))) (between out)
      ≡ scan_all line (between (out ++ a ∷ []))
unfolding scan_all scan_char is_whitespace
scan_all-quoted a line out h = scan_all-inside a (34 ∷ 32 ∷ line) out [] h

scan_all-quote_all :
    (args out : List Text)
    → AllPlain args
    → scan_all (quote_all args) (between out) ≡ between (out ++ args)
unfolding scan_all
scan_all-quote_all [] out h = rw (append-nil out) refl
scan_all-quote_all (a ∷ args) out h =
    scan_all-quoted a (quote_all args) out h.0
    ∙ scan_all-quote_all args (out ++ a ∷ []) h.1
    ∙ ap between (append_assoc out (a ∷ []) args)

-- Arguments without a double quote, each put in double quotes, are what the line is split into,
-- whatever white space they hold, and also when they are empty.
pub tokenize-quote_all : (args : List Text) → AllPlain args → tokenize (quote_all args) ≡ args
unfolding tokenize
tokenize-quote_all args h = rw (scan_all-quote_all args [] h) refl

scan_char-blank : (c : ℕ) → IsBlank c → scan_char c scan_start ≡ scan_start
unfolding scan_char is_whitespace
scan_char-blank c h = ground arith

abbrev is_nil : List Text → Bool
is_nil [] = true
is_nil (a ∷ args) = false

-- A token is complete or begun.
abbrev busy : Scan → Bool
busy s = s.started || not (is_nil s.out)

is_nil-append : (out : List Text) (a : Text) → is_nil (out ++ a ∷ []) ≡ false
is_nil-append [] a = refl
is_nil-append (b ∷ out) a = refl

scan_char-ink : (c : ℕ) → IsInk c → busy (scan_char c scan_start) ≡ true
unfolding scan_char
scan_char-ink c h = ground arith

scan_char-busy : (c : ℕ) (s : Scan) → busy s ≡ true → busy (scan_char c s) ≡ true
unfolding scan_char
scan_char-busy c s h = ground (arith, is_nil-append s.out s.cur)

scan_all-busy : (line : Text) (s : Scan) → busy s ≡ true → scanned (scan_all line s) ≢ []
unfolding scan_all
scan_all-busy [] s h = ground (arith, is_nil-append s.out s.cur)
scan_all-busy (c ∷ line) s h = scan_all-busy line (scan_char c s) (scan_char-busy c s h)

tokenize-blank : (line : Text) → All IsBlank line → tokenize line ≡ []
unfolding tokenize scan_all
tokenize-blank [] h = refl
tokenize-blank (c ∷ line) h =
    ap (λ s. scanned (scan_all line s)) (scan_char-blank c h.0) ∙ tokenize-blank line h.1

IsBlank-tokenize : (line : Text) → tokenize line ≡ [] → All IsBlank line
unfolding tokenize scan_all
IsBlank-tokenize [] h = tt
IsBlank-tokenize (c ∷ line) h = elim (Bool-cases (is_whitespace c)) [
  | inl e ↦ (
    e,
    IsBlank-tokenize line (ap (λ s. scanned (scan_all line s)) (sym (scan_char-blank c e)) ∙ h),
  )
  | inr e ↦ absurd (scan_all-busy line (scan_char c scan_start) (scan_char-ink c e) h)
]

pub tokenize-nil_iff : (line : Text) → (tokenize line ≡ []) ↔ All IsBlank line
tokenize-nil_iff line = (IsBlank-tokenize line, tokenize-blank line)

spawn-no_command :
    (action : DeviceAction) (m : MemberView) (tokens : List Text)
    → (spawn action m tokens ≡ err RunError.no_command) ↔ (tokens ≡ [])
unfolding spawn
spawn-no_command action m [] = ground arith
spawn-no_command action m (program ∷ args) = ground arith

spawn-no_ip :
    (action : DeviceAction) (m : MemberView) (tokens : List Text)
    → (spawn action m tokens ≡ err RunError.no_ip)
      ↔ ((tokens ≢ []) × (contains_text ip_mark action.command ≡ true) × (m.virtual_ip ≡ none))
unfolding spawn
spawn-no_ip action m [] = ground arith
spawn-no_ip action m (program ∷ args) = ground arith

-- An action is refused for want of a command exactly when its command is nothing but white space,
-- and for want of an address exactly when the command is more than that and contains `{ip}`, and
-- the member has no address yet.
pub run_action_errors :
    (action : DeviceAction) (m : MemberView)
    → ((run_action action m ≡ err RunError.no_command) ↔ All IsBlank action.command)
      × ((run_action action m ≡ err RunError.no_ip) ↔ (
          (¬ All IsBlank action.command)
          × (contains_text ip_mark action.command ≡ true)
          × (m.virtual_ip ≡ none)))
unfolding run_action
run_action_errors action m =
    let blank = tokenize-nil_iff action.command in
    let refused = spawn-no_command action m (tokenize action.command) in
    let unknown = spawn-no_ip action m (tokenize action.command) in
    (
      (λ h. blank.0 (refused.0 h), λ h. refused.1 (blank.1 h)),
      (
        λ h.
            let (some_token, mark, absent) = unknown.0 h in
            (λ b. some_token (blank.1 b), mark, absent),
        λ h. unknown.1 (λ e. h.0 (blank.0 e), h.1, h.2),
      ),
    )
