-- ===== src/Agent/WebTests.antt =====
-- A search with one page, and the theorem applied to it.
use finance_rag.Prelude.{ℕ, ◌≡◌, refl, true, false, none, some, [], ◌∷◌, All}
use finance_rag.Samples.{bits}
use finance_rag.Config.{Settings, defaults}
use finance_rag.Guardrails.Answerability.{returned}
use finance_rag.Text.{
  codes, text_eq, is_space, to_lower, lower, strip_left, strip_right, strip, starts_with, contains,
  join, split_at, split,
}
use finance_rag.Chunking.Structure.{lines_from, splitlines}
use finance_rag.Agent.WebText.{
  up_to_char, link_after, drop_images, unlink, squeeze, article_lines, clean_web_text,
}
use finance_rag.Agent.Web.{
  WebServices, IsExternal, search-IsExternal, enabled, named, domains, web_passage, web_passages,
  search,
}

abbrev searching : Settings
searching = record defaults { web_search_enabled = true; tavily_api_key = codes "key" }

page_cleaned :
    clean_web_text
      (codes "Skip to main content\n![seal](s.png)\n[Rates](x) for 2026 are out.\nMenu")
      []
      4000
    ≡ codes "Rates for 2026 are out."
unfolding text_eq is_space to_lower lower strip_left strip_right strip starts_with contains join
    split_at split lines_from splitlines up_to_char link_after drop_images unlink squeeze
    article_lines clean_web_text enabled named domains web_passage web_passages search
page_cleaned = refl

abbrev irs : WebServices ℕ
irs = record {
  now = codes "2026-01-01";
  uuid5 = λ url. url;
  post = λ q fresh ds. returned (
      record {
        raw_content = some (codes "[Rates](x) for 2026 are out.");
        content = none;
        url = some (codes "irs.gov");
        title = none;
        published_date = none;
        score = some 3;
      }
      ∷ []);
}

search-IsExternal_example :
    All (IsExternal bits searching irs) (search bits searching irs (codes "rates") true)
    × (enabled searching ≡ false → search bits searching irs (codes "rates") true ≡ [])
search-IsExternal_example = search-IsExternal bits searching irs (codes "rates") true
