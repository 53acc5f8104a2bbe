-- ===== src/FileStore/Format/Plain.antt =====
-- Texts without control characters, which a file holds one to a line.
use Prim.Native.Char.{code}
use Prim.Native.String
use Prim.Native.String.append
use text.Mathlib.TextLemmas as Text
use eventcore.Prelude.{
  ◌≡◌, refl, sym, ap, ◌∙◌, String, List, [], ◌∷◌, ◌++◌, map, Bool, true, ◌&&◌, some, All, arith,
  leb,
}
use eventcore.FileStore.Format.{payload_of}
use eventcore.FileStore.Format.Lines.{split_line, split_lines, strip_return, lines, join}

-- A text without control characters.
unfoldable pub is_plain : String → Bool
is_plain String.[] = true
is_plain (String.◌∷◌ c s) = leb 32 (code c) && is_plain s

newline-append : (p : String) → String.◌++◌ "\n" p ≡ String.◌∷◌ "\n" p
newline-append p = append.cons "\n" "" p ∙ ap (String.◌∷◌ "\n") (append.nil p)

pub split_line-append :
    (l p : String)
    → is_plain l ≡ true
    → split_line (String.◌++◌ l (String.◌++◌ "\n" p)) ≡ some (l, p)
unfolding is_plain split_line
split_line-append String.[] p h = ap split_line (append.nil (String.◌++◌ "\n" p) ∙ newline-append p)
split_line-append (String.◌∷◌ c s) p h =
    rw (append.cons c s (String.◌++◌ "\n" p)) (ground (arith, split_line-append s p))

split_lines-append :
    (l s : String)
    → is_plain l ≡ true
    → split_lines (String.◌++◌ l (String.◌++◌ "\n" s)) ≡ l ∷ split_lines s
unfolding is_plain split_lines
split_lines-append String.[] s h =
    ap split_lines (append.nil (String.◌++◌ "\n" s) ∙ newline-append s)
split_lines-append (String.◌∷◌ c l) s h =
    rw (append.cons c l (String.◌++◌ "\n" s)) (ground (arith, split_lines-append l s))

strip_return-plain : (s : String) → is_plain s ≡ true → strip_return s ≡ s
unfolding is_plain strip_return
strip_return-plain String.[] h = refl
strip_return-plain (String.◌∷◌ c String.[]) h = ground arith
strip_return-plain (String.◌∷◌ c (String.◌∷◌ d s)) h =
    ap (String.◌∷◌ c) (strip_return-plain (String.◌∷◌ d s) (ground arith))

pub lines-append :
    (l s : String) → is_plain l ≡ true → lines (String.◌++◌ l (String.◌++◌ "\n" s)) ≡ l ∷ lines s
lines-append l s h =
    ap (map strip_return) (split_lines-append l s h)
    ∙ ap (λ t. t ∷ lines s) (strip_return-plain l h)

-- The payload is read as the lines that it was joined from.
pub lines-payload :
    (l : String) (ls : List String)
    → All (λ s. is_plain s ≡ true) (l ∷ ls)
    → lines (payload_of (l ∷ ls)) ≡ l ∷ ls
unfolding join split_lines
lines-payload l [] h = lines-append l "" h.0
lines-payload l (m ∷ ls) h =
    let rest = join (m ∷ ls) in
    ap lines (
      Text.append_assoc l (String.◌++◌ "\n" rest) "\n"
      ∙ ap (String.◌++◌ l) (Text.append_assoc "\n" rest "\n"))
    ∙ lines-append l (String.◌++◌ rest "\n") h.0
    ∙ ap (λ t. l ∷ t) (lines-payload m ls h.1)

-- the lines of a file, each with its newline
unfoldable pub text_of : List String → String
text_of [] = ""
text_of (l ∷ ls) = String.◌++◌ l (String.◌++◌ "\n" (text_of ls))

pub lines-text_of : (ls : List String) → All (λ s. is_plain s ≡ true) ls → lines (text_of ls) ≡ ls
unfolding text_of split_lines
lines-text_of [] h = refl
lines-text_of (l ∷ ls) h = lines-append l (text_of ls) h.0 ∙ ap (λ t. l ∷ t) (lines-text_of ls h.1)

pub text_of-append :
    (ls ms : List String) → text_of (ls ++ ms) ≡ String.◌++◌ (text_of ls) (text_of ms)
unfolding text_of
text_of-append [] ms = sym (append.nil (text_of ms))
text_of-append (l ∷ ls) ms =
    ap (λ t. String.◌++◌ l (String.◌++◌ "\n" t)) (text_of-append ls ms)
    ∙ ap (String.◌++◌ l) (sym (Text.append_assoc "\n" (text_of ls) (text_of ms)))
    ∙ sym (Text.append_assoc l (String.◌++◌ "\n" (text_of ls)) (text_of ms))
