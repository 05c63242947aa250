-- ===== src/Main/Commands.antt =====
-- The command lines that src/main.rs accepts.
use macmapd.Base.{
  ◌≡◌, refl, ap, ◌∙◌, Bool, true, false, ◌||◌, some, List, [], ◌∷◌, Bytes, ascii, bytes_eq, ok,
}
use macmapd.Text.Utf8.{from_utf8, decode}
use macmapd.Main.{Parsed, word_of, parse_from, parse_args, default_path}

pub data Command : Type 0 where
  check : Command
  at_path : Bytes → Command

abbrev pub render : List Command → List Bytes
render [] = []
render (check ∷ rest) = ascii "check-config" ∷ render rest
render (at_path path ∷ rest) = ascii "--config" ∷ path ∷ render rest

-- The last path that is given, and whether a check is asked for anywhere.
abbrev pub last_path : Bytes → List Command → Bytes
last_path path [] = path
last_path path (check ∷ rest) = last_path path rest
last_path path (at_path next ∷ rest) = last_path next rest

abbrev pub asks_check : List Command → Bool
asks_check [] = false
asks_check (check ∷ rest) = true
asks_check (at_path next ∷ rest) = asks_check rest

or_true : (b : Bool) → true ≡ (b || true)
or_true true = refl
or_true false = refl

or_false : (b : Bool) → b ≡ (b || false)
or_false true = refl
or_false false = refl

abbrev answered : Bytes → Bool → Parsed
answered path b = ok (some (path, b))

parse_from-render :
    (cs : List Command) (path : Bytes) (b : Bool)
    → parse_from path b (render cs) ≡ ok (some (last_path path cs, b || asks_check cs))
unfolding parse_from word_of bytes_eq from_utf8 decode
parse_from-render [] path b = ap (answered path) (or_false b)
parse_from-render (check ∷ []) path b = ap (answered path) (or_true b)
parse_from-render (check ∷ check ∷ rest) path b =
    parse_from-render (check ∷ rest) path true ∙ ap (answered (last_path path rest)) (or_true b)
parse_from-render (check ∷ at_path next ∷ rest) path b =
    parse_from-render rest next true ∙ ap (answered (last_path next rest)) (or_true b)
parse_from-render (at_path next ∷ rest) path b = parse_from-render rest next b

-- Every sequence of `check-config` and `--config PATH` is accepted, in any order and number: the last
-- path counts, or the default one if none is given, and one `check-config` is enough.
pub parse_args-render :
    (cs : List Command)
    → parse_args (render cs) ≡ ok (some (last_path default_path cs, asks_check cs))
unfolding parse_args
parse_args-render cs = parse_from-render cs default_path false
