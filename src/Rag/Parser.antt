-- ===== src/Rag/Parser.antt =====
-- src/rag/services/document-parser.service.ts. pdf-parse, cheerio and the decoding of UTF-8 are
-- parameters.
mod Tests
use ai_content_platform.Prelude.{
  ℕ, String, Bool, false, Option, none, some, List, [], ◌∷◌, ◌==◌, if◌then◌else◌, is_space, utf16,
}
use ai_content_platform.Exceptions.{Settled, resolved}
use ai_content_platform.Rag.Splitter.{Text, trim}
use ai_content_platform.Rag.Service.{bind}

-- The metadata is a list of keys and values.
pub record ParsedDocument : Type 0 where
  pub text : Text
  pub page_count : Option ℕ
  pub metadata : List (String × Text)

-- What pdf-parse gives: the title and the author stand in an optional table.
pub record PdfData : Type 0 where
  pub text : Text
  pub numpages : ℕ
  pub title : Option Text
  pub author : Option Text

-- A tree of cheerio is loaded from text; `removed` is the tree without the elements of a selector,
-- and `text_of` the text of those.
pub record ParserLibraries (W Dom : Type 0) : Type 0 where
  pub pdf_parse : List ℕ → W → Settled PdfData × W
  pub to_utf8 : List ℕ → Text
  pub load : Text → Dom
  pub removed : String → Dom → Dom
  pub text_of : String → Dom → Text

abbrev text_or_empty : Option Text → Text
text_or_empty none = []
text_or_empty (some t) = t

-- `text.replace(/\s+/g, ' ')`: one space for every run. `collapse_from` drops the rest of a run.
unfoldable pub collapse_from : Bool → Text → Text
collapse_from in_run [] = []
collapse_from in_run (c ∷ s) =
    let after = collapse_from (is_space c) s in
    if is_space c then (if in_run then after else 32 ∷ after) else c ∷ after

module _ {W Dom : Type 0} (p : ParserLibraries W Dom) where
  abbrev pdf_document : PdfData → ParsedDocument
  pdf_document pdf = record {
    text = pdf.text;
    page_count = some pdf.numpages;
    metadata = ("title", text_or_empty pdf.title) ∷ ("author", text_or_empty pdf.author) ∷ [];
  }

  unfoldable pub parse_pdf : List ℕ → W → Settled ParsedDocument × W
  parse_pdf buffer w = bind (p.pdf_parse buffer w) λ pdf v. (resolved (pdf_document pdf), v)

  unfoldable pub parse_plain_text : List ℕ → String → ParsedDocument
  parse_plain_text buffer filename = record {
    text = p.to_utf8 buffer;
    page_count = none;
    metadata = ("filename", utf16 filename) ∷ [];
  }

  unfoldable pub parse_html : List ℕ → String → ParsedDocument
  unfolding trim collapse_from
  parse_html buffer filename =
      let dom = p.removed "script, style, nav, footer, header" (p.load (p.to_utf8 buffer)) in
      record {
        text = trim (collapse_from false (p.text_of "body" dom));
        page_count = none;
        metadata = ("title", trim (p.text_of "title" dom)) ∷ ("filename", utf16 filename) ∷ [];
      }

  unfoldable pub parse : List ℕ → String → String → W → Settled ParsedDocument × W
  unfolding parse_pdf parse_plain_text parse_html
  parse buffer mime_type filename w =
      if mime_type == "application/pdf"
      then parse_pdf buffer w
      else if mime_type == "text/html"
      then (resolved (parse_html buffer filename), w)
      else if mime_type == "text/htm"
      then (resolved (parse_html buffer filename), w)
      else (resolved (parse_plain_text buffer filename), w)
