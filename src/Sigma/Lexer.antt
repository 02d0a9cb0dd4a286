-- ===== src/Sigma/Lexer.antt =====
-- crates/goliath-sigma/src/lexer.rs: the tokens of a condition. A word that is being read is kept
-- with the offset of its first character.
use goliath_siem.Base.{
  ℕ, ◌+◌, ◌^◌, Bool, ◌||◌, ◌&&◌, Option, none, some, List, [], ◌∷◌, ◌++◌, map, leb, ◌==◌,
  if◌then◌else◌, Text, text, text_eq, len_utf8, byte_length,
}
use goliath_siem.Base.Std.{is_whitespace, is_digit, parse_unsigned}
use goliath_siem.Rule.Fold.{to_ascii_lowercase}
use goliath_siem.Sigma.Span.{Span}

pub data TokenKind : Type 0 where
  identifier : Text → TokenKind
  number : ℕ → TokenKind
  and or not of them all l_paren r_paren pipe : TokenKind

pub record Token : Type 0 where
  pub kind : TokenKind
  pub span : Span

pub data Tokens : Type 0 where
  tokens : List Token → Tokens
  unexpected_character : ℕ → Span → Tokens

unfoldable pub is_word_char : ℕ → Bool
unfolding is_digit
is_word_char c =
    is_digit c || (leb b'a' c && leb c b'z') || (leb b'A' c && leb c b'Z') || c == b'_' || c == b'*'

unfoldable pub number_or : Option ℕ → Text → TokenKind
number_or none word = identifier word
number_or (some n) word = number n

unfoldable pub classify : Text → TokenKind
unfolding to_ascii_lowercase text_eq number_or parse_unsigned
classify word =
    let lower = map to_ascii_lowercase word in
    if text_eq lower (text "and")
    then and
    else if text_eq lower (text "or")
    then or
    else if text_eq lower (text "not")
    then not
    else if text_eq lower (text "of")
    then of
    else if text_eq lower (text "them")
    then them
    else if text_eq lower (text "all")
    then all
    else number_or (parse_unsigned (2 ^ 64) word) word

-- The token of the word that has been read, if there is one.
unfoldable pub end_word : Option (ℕ × Text) → List Token → List Token
unfolding classify byte_length
end_word none read = read
end_word (some (start, word)) read =
    read
    ++ record {
      kind = classify word;
      span = record { start = start; end = start + byte_length word };
    }
      ∷ []

abbrev pub longer_word : Option (ℕ × Text) → ℕ → ℕ → ℕ × Text
longer_word none offset c = (offset, c ∷ [])
longer_word (some (start, word)) offset c = (start, word ++ c ∷ [])

abbrev one_char : TokenKind → ℕ → Token
one_char kind offset = record { kind = kind; span = record { start = offset; end = offset + 1 } }

-- The loop of `tokenize`, with the tokens read. What follows a `|` is not read.
unfoldable pub tokenize_loop : ℕ → Option (ℕ × Text) → List Token → Text → Tokens
unfolding is_word_char is_whitespace end_word len_utf8
tokenize_loop offset word read [] = tokens (end_word word read)
tokenize_loop offset word read (c ∷ s) =
    let next = offset + len_utf8 c in
    let ended = end_word word read in
    let skipped = tokenize_loop next none ended s in
    let opened = tokenize_loop next none (ended ++ one_char l_paren offset ∷ []) s in
    let closed = tokenize_loop next none (ended ++ one_char r_paren offset ∷ []) s in
    let in_word = tokenize_loop next (some (longer_word word offset c)) read s in
    if is_whitespace c
    then skipped
    else if c == b'('
    then opened
    else if c == b')'
    then closed
    else if c == b'|'
    then tokens (ended ++ one_char pipe offset ∷ [])
    else if is_word_char c
    then in_word
    else unexpected_character c (record { start = offset; end = next })

unfoldable pub tokenize : Text → Tokens
unfolding tokenize_loop
tokenize source = tokenize_loop 0 none [] source
