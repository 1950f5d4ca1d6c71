-- ===== src/Host/Clipboard.antt =====
-- `ClipboardManager` of apps/gibberish-daemon/src/clipboard.rs: the echo suppression. What the
-- operating system's clipboard holds and whether it took a text are arguments, as is the clock in
-- milliseconds; BLAKE3 is the parameter `hash`, its 32 bytes read as a number.
pub mod Echo
use gibberish.Prelude.{
  ℕ, ◌+◌, Bool, not, ◌&&◌, Option, none, some, List, [], ◌∷◌, ltb, ◌==◌, if◌then◌else◌,
}

abbrev pub echo_suppression_window : ℕ
echo_suppression_window = 500

abbrev pub Text : Type 0
Text = List ℕ

pub record ClipboardManager : Type 0 where
  pub last_hash : ℕ
  pub suppress_until : ℕ
  pub suppressed_hash : ℕ

unfoldable pub new_clipboard : ℕ → ClipboardManager
new_clipboard now = record { last_hash = 0; suppress_until = now; suppressed_hash = 0 }

module _ (hash : Text → ℕ) where
  -- `content` is what was read, `none` for an empty or unreadable clipboard.
  unfoldable pub read_clipboard :
      ℕ → Option Text → ClipboardManager → ClipboardManager × Option Text
  read_clipboard now none m = (m, none)
  read_clipboard now (some text) m =
      let hash_bytes = hash text in
      if ltb now m.suppress_until && hash_bytes == m.suppressed_hash
      then (m, none)
      else if not (hash_bytes == m.last_hash)
      then (record m { last_hash = hash_bytes }, some text)
      else (m, none)

  unfoldable pub arm_suppression : ℕ → Text → ClipboardManager → ClipboardManager
  arm_suppression now text m = record m {
    suppressed_hash = hash text;
    suppress_until = now + echo_suppression_window;
    last_hash = hash text;
  }

  -- The result says whether one of the writers took the text.
  unfoldable pub write_clipboard : ℕ → Text → Bool → ClipboardManager → ClipboardManager × Bool
  unfolding arm_suppression
  write_clipboard now text success m = (arm_suppression now text m, success)

  unfoldable pub is_suppressed : ℕ → Text → ClipboardManager → Bool
  is_suppressed now text m = ltb now m.suppress_until && hash text == m.suppressed_hash

  -- What a sequence of reads hands on, each at its time.
  unfoldable pub reads : List (ℕ × Option Text) → ClipboardManager → List (Option Text)
  reads [] m = []
  reads ((now, content) ∷ rest) m = let r = read_clipboard now content m in r.1 ∷ reads rest r.0
