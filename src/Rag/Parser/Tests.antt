-- ===== src/Rag/Parser/Tests.antt =====
-- The parser over libraries that take a text for its own tree.
use ai_content_platform.Prelude.{ℕ, ◌+◌, ◌≡◌, refl, none, [], ◌∷◌, codes}
use ai_content_platform.Exceptions.{error, resolved, rejected}
use ai_content_platform.Rag.Splitter.{Text}
use ai_content_platform.Rag.Parser.{ParserLibraries, parse}

abbrev libraries : ParserLibraries ℕ Text
libraries = record {
  pdf_parse = λ buffer w. (rejected (error "bad XRef entry"), w + 1);
  to_utf8 = λ buffer. buffer;
  load = λ html. html;
  removed = λ selector dom. dom;
  text_of = λ selector dom. dom;
}

collapses_white_space : parse libraries (codes "  a \n b ") "text/html" "f" 0 ≡ (
  resolved (record {
    text = codes "a b";
    page_count = none;
    metadata = ("title", codes "a \n b") ∷ ("filename", codes "f") ∷ [];
  }),
  0,
)
unfolding parse
collapses_white_space = refl

an_unknown_type_is_plain : parse libraries (codes "  a ") "image/png" "f" 0 ≡ (
  resolved
      (record { text = codes "  a "; page_count = none; metadata = ("filename", codes "f") ∷ [] }),
  0,
)
unfolding parse
an_unknown_type_is_plain = refl

a_bad_pdf_fails :
    parse libraries [] "application/pdf" "f" 0 ≡ (rejected (error "bad XRef entry"), 1)
unfolding parse
a_bad_pdf_fails = refl
