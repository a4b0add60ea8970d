-- ===== src/Shell/CommandLine.antt =====
-- A command line as words with a space between them.
use mathlib.Core.List.{reverse, reverse-cons, reverse-append, reverse-reverse}
use mathlib.Core.Path.{subst}
use alilu_os.Common.{true, false, List, [], ◌∷◌, ◌++◌, ◌≡◌, refl, sym, ◌∙◌, ap}
use alilu_os.Common.{if◌then◌else◌, Text, is_empty, is_whitespace, trim_start, trim, split_where}
use alilu_os.Common.{split_whitespace, join_words, filled_only, codes, text_eq, ◌&&◌}
use alilu_os.Vga.{Vga}
use alilu_os.Fs.{ok, write_file, read_file}
use alilu_os.Fs.Graft.{path_eq}
use alilu_os.Fs.Files.{read_file-write_file}
use alilu_os.Shell.{Machine, target}
use alilu_os.Shell.Commands.{
  Program, execute_command, run_words, asks_help, show_manual, dispatch, write_command,
}

-- A text of characters that are not white space.
abbrev pub AreSolid : Text → Type 0
AreSolid [] = Unit
AreSolid (c ∷ s) = (is_whitespace c ≡ false) × AreSolid s

-- A word is such a text, and not empty.
abbrev pub IsWord : Text → Type 0
IsWord [] = ⊥
IsWord (c ∷ s) = AreSolid (c ∷ s)

abbrev pub AreWords : List Text → Type 0
AreWords [] = Unit
AreWords (w ∷ ws) = IsWord w × AreWords ws

-- A text that begins with no white space, nor is it empty.
abbrev Begins : Text → Type 0
Begins [] = ⊥
Begins (c ∷ s) = is_whitespace c ≡ false

Begins-append : (s t : Text) → Begins s → Begins (s ++ t)
Begins-append [] t h = elim h [ ]
Begins-append (c ∷ s) t h = h

Begins-reverse : (w : Text) → IsWord w → Begins (reverse w)
Begins-reverse [] h = elim h [ ]
Begins-reverse (c ∷ []) h = h.0
Begins-reverse (c ∷ d ∷ s) h =
    subst Begins (sym (reverse-cons c (d ∷ s)))
      (Begins-append (reverse (d ∷ s)) (c ∷ []) (Begins-reverse (d ∷ s) h.1))

Begins-join_words : (w : Text) (ws : List Text) → AreWords (w ∷ ws) → Begins (join_words (w ∷ ws))
unfolding join_words
Begins-join_words [] ws (h, hs) = elim h [ ]
Begins-join_words (c ∷ w) [] (h, hs) = h.0
Begins-join_words (c ∷ w) (v ∷ ws) (h, hs) = h.0

Begins-reverse-join_words :
    (w : Text) (ws : List Text) → AreWords (w ∷ ws) → Begins (reverse (join_words (w ∷ ws)))
unfolding join_words
Begins-reverse-join_words w [] (h, hs) = Begins-reverse w h
Begins-reverse-join_words w (v ∷ ws) (h, hs) =
    let rest = join_words (v ∷ ws) in
    subst Begins
      (sym (reverse-append w (b' ' ∷ rest) ∙ ap (λ r. r ++ reverse w) (reverse-cons b' ' rest)))
      (Begins-append (reverse rest ++ (b' ' ∷ [])) (reverse w)
        (Begins-append (reverse rest) (b' ' ∷ []) (Begins-reverse-join_words v ws hs)))

trim_start_solid : (s : Text) → Begins s → trim_start s ≡ s
unfolding trim_start
trim_start_solid [] h = refl
trim_start_solid (c ∷ s) h = rw h refl

trim-join_words :
    (w : Text) (ws : List Text)
    → AreWords (w ∷ ws)
    → trim (join_words (w ∷ ws)) ≡ join_words (w ∷ ws)
unfolding trim
trim-join_words w ws v =
    let line = join_words (w ∷ ws) in
    ap (λ s. reverse (trim_start (reverse s))) (trim_start_solid line (Begins-join_words w ws v))
    ∙ ap reverse (trim_start_solid (reverse line) (Begins-reverse-join_words w ws v))
    ∙ reverse-reverse line

split_where_word : (w : Text) → AreSolid w → split_where is_whitespace w ≡ w ∷ []
unfolding split_where
split_where_word [] h = refl
split_where_word (c ∷ w) h = rw (h.0, split_where_word w h.1) refl

split_where-append :
    (w rest : Text)
    → AreSolid w
    → split_where is_whitespace (w ++ (b' ' ∷ rest)) ≡ w ∷ split_where is_whitespace rest
unfolding split_where
split_where-append [] rest h = unfold is_whitespace in refl
split_where-append (c ∷ w) rest h = rw (h.0, split_where-append w rest h.1) refl

split_whitespace-join_words : (ws : List Text) → AreWords ws → split_whitespace (join_words ws) ≡ ws
unfolding split_whitespace join_words split_where
split_whitespace-join_words [] h = refl
split_whitespace-join_words ([] ∷ ws) h = elim h.0 [ ]
split_whitespace-join_words ((c ∷ w) ∷ []) h = ap filled_only (split_where_word (c ∷ w) h.0)
split_whitespace-join_words ((c ∷ w) ∷ v ∷ ws) h =
    ap filled_only (split_where-append (c ∷ w) (join_words (v ∷ ws)) h.0)
    ∙ ap (λ r. (c ∷ w) ∷ r) (split_whitespace-join_words (v ∷ ws) h.1)

-- A command line of words runs the first of them as the command and gives it the others.
execute_command-join_words :
    (launch : Program → Vga → Vga) (name : Text) (args : List Text) (m : Machine)
    → AreWords (name ∷ args)
    → execute_command launch (join_words (name ∷ args)) m ≡ run_words launch (name ∷ args) m
unfolding execute_command
execute_command-join_words launch name args m h =
    ap (λ words. run_words launch words m)
      (ap split_whitespace (trim-join_words name args h)
        ∙ split_whitespace-join_words (name ∷ args) h)

write-facts : (AreWords (codes "write" ∷ [])) × (text_eq (codes "write") (codes "write") ≡ true)
unfolding is_whitespace text_eq
write-facts = (((refl, (refl, (refl, (refl, (refl, tt))))), tt), refl)

dispatch-write :
    (launch : Program → Vga → Vga) (args : List Text) (m : Machine)
    → dispatch launch (codes "write") args m ≡ write_command args m
unfolding dispatch text_eq
dispatch-write launch args m = refl

-- The command line `write path words`, of words with a space between them and no option that asks
-- for help, on a path whose name is not empty: where the file system takes the write, the file reads
-- as the words with a space between them and every other path reads as before.
pub execute_command-write :
    (launch : Program → Vga → Vga) (path word : Text) (words : List Text) (m : Machine)
    (q : List Text) (k : Text)
    → AreWords (path ∷ word ∷ words)
    → asks_help (codes "write") (path ∷ word ∷ words) ≡ false
    → is_empty (target m path).1 ≡ false
    → (write_file m.fs (target m path).0 (target m path).1 (join_words (word ∷ words))).1 ≡ ok tt
    → read_file (execute_command launch (join_words (codes "write" ∷ path ∷ word ∷ words)) m).fs q k
      ≡ (if path_eq (target m path).0 q && text_eq (target m path).1 k
          then ok (join_words (word ∷ words))
          else read_file m.fs q k)
unfolding write_command
execute_command-write launch path word words m q k v no_help named taken =
    let args = path ∷ word ∷ words in
    let runs =
      execute_command-join_words launch (codes "write") args m (write-facts.0.0, v)
      ∙ ap (λ b. if b then show_manual m else dispatch launch (codes "write") args m) no_help
      ∙ dispatch-write launch args m in
    let files : (write_command args m).fs
        ≡ (write_file m.fs (target m path).0 (target m path).1 (join_words (word ∷ words))).0 =
      rw named refl in
    ap (λ n. read_file n.fs q k) runs
    ∙ ap (λ fs. read_file fs q k) files
    ∙ read_file-write_file m.fs (target m path).0 q (target m path).1 (join_words (word ∷ words)) k
        taken
