-- ===== src/Host/Clipboard/Echo.antt =====
-- A text that came from the mesh is not sent back into it.
use gibberish.Prelude.{ℕ, ◌≡◌, ◌≢◌, refl, Bool, false, none, some, List, [], ◌∷◌, map, arith}
use gibberish.Host.Clipboard.{
  Text, ClipboardManager, read_clipboard, arm_suppression, write_clipboard, is_suppressed, reads,
}

module _ (hash : Text → ℕ) where
  quiet :
      (text : Text) (now : ℕ) (m : ClipboardManager)
      → m.last_hash ≡ hash text
      → read_clipboard hash now (some text) m ≡ (m, none)
  unfolding read_clipboard
  quiet text now m h = ground arith

  reads-quiet :
      (text : Text) (times : List ℕ) (m : ClipboardManager)
      → m.last_hash ≡ hash text
      → reads hash (map (λ now. (now, some text)) times) m ≡ map (λ now. none) times
  unfolding reads
  reads-quiet text [] m h = refl
  reads-quiet text (now ∷ times) m h =
      ground (arith, quiet text now m h, reads-quiet text times m h)

  -- A text that the daemon wrote into the clipboard is never handed on while it stays there, however
  -- often and whenever the clipboard is read: also after the window of 500 ms, when the repository's plan
  -- takes the text for a copy of the user and has it sent.
  pub echo_suppressed :
      (now : ℕ) (text : Text) (success : Bool) (m : ClipboardManager) (times : List ℕ)
      → reads hash (map (λ t. (t, some text)) times) (write_clipboard hash now text success m).0
        ≡ map (λ t. none) times
  unfolding write_clipboard arm_suppression
  echo_suppressed now text success m times =
      reads-quiet text times (arm_suppression hash now text m) refl

  -- A text that the user copied is handed on once and not again while it stays there, if it is not
  -- suppressed at that time and its hash is not that of the last one.
  pub copied_once :
      (now : ℕ) (text : Text) (m : ClipboardManager) (times : List ℕ)
      → is_suppressed hash now text m ≡ false
      → hash text ≢ m.last_hash
      → reads hash (map (λ t. (t, some text)) (now ∷ times)) m ≡ some text ∷ map (λ t. none) times
  unfolding reads is_suppressed read_clipboard
  copied_once now text m times quiet_now new_text =
      ground (arith, reads-quiet text times (record m { last_hash = hash text }) refl)
