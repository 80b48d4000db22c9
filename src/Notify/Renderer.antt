-- ===== src/Notify/Renderer.antt =====
-- `TemplateRenderer` of app/templates/renderer.py. Jinja2 is the parameter `jinja`: what
-- `env.get_template(candidate).render(**context).strip()` gives in the plain or the HTML environment.
use Prim.Native.String.{[], ◌∷◌}
use mathlib.Core.Option
use ushnotice.Common.{
  String, ◌<>◌, ◌==◌, Bool, false, Option, none, some, List, ◌++◌, ◌&&◌, if◌then◌else◌,
}
use ushnotice.Json.{Json, Fields, get, has_key, truthy}

pub data JinjaResult : Type 0 where
  not_found : JinjaResult
  text : String → JinjaResult
  error : String → JinjaResult

-- the rendered text, or `TemplateRenderError` with its template and cause
pub data Rendered : Type 0 where
  rendered : String → Rendered
  render_error : String → String → Rendered

-- `s[:-len(suffix)]` where `s.endswith(suffix)`
unfoldable pub strip_suffix : String → String → Option String
strip_suffix [] suffix = if suffix == "" then some "" else none
strip_suffix (c ∷ s) suffix =
    let rest = Option.map (◌∷◌ c) (strip_suffix s suffix) in
    if (c ∷ s) == suffix then some "" else rest

abbrev pub single : String → List String
single s = List.◌∷◌ s List.[]

-- the template in the language, and in English after that
unfoldable pub in_languages : String → String → List String
in_languages name lang =
    if lang == "en"
    then single (name <> "." <> lang <> ".j2")
    else single (name <> "." <> lang <> ".j2") ++ single (name <> ".en.j2")

-- the base template of the first suffix that fits
unfoldable pub base_name : String → List String → Option String
base_name name List.[] = none
base_name name (List.◌∷◌ suffix rest) = elim (strip_suffix name suffix) [
  | some base ↦ some base
  | none ↦ base_name name rest
]

abbrev pub suffixes : List String
suffixes = single "_sms" ++ single "_whatsapp" ++ single "_email"

abbrev from_base : String → Option String → List String
from_base lang none = List.[]
from_base lang (some base) = in_languages base lang

unfoldable pub candidates : String → String → List String
unfolding in_languages base_name
candidates name lang = in_languages name lang ++ from_base lang (base_name name suffixes)

-- `str` of a list of texts, given their `repr`
unfoldable pub list_text : (String → String) → List String → String
list_text repr List.[] = ""
list_text repr (List.◌∷◌ t List.[]) = repr t
list_text repr (List.◌∷◌ t ts) = repr t <> ", " <> list_text repr ts

-- The message of a `TemplateRenderError`.
unfoldable pub error_text : (String → String) → String → String → String
error_text repr template cause = "Failed to render template " <> repr template <> ": " <> cause

module _ (jinja : String → Bool → Fields → JinjaResult) (str_of : Json → String)
    (strip repr : String → String) where
  -- the fallbacks after the last candidate
  unfoldable pub fallback : String → String → Fields → Rendered
  unfolding candidates list_text
  fallback name lang context =
      if has_key context "message_body" && truthy (get context "message_body")
      then rendered (strip (str_of (get context "message_body")))
      else if has_key context "raw_body" && truthy (get context "raw_body")
      then rendered (strip (str_of (get context "raw_body")))
      else render_error (name <> "." <> lang <> ".j2") (
          "No template found for "
          <> repr name
          <> " in languages ["
          <> list_text repr (candidates name lang)
          <> "]")

  -- the loop over the candidates
  unfoldable pub first_template : List String → Bool → Fields → Rendered → Rendered
  first_template List.[] is_html context otherwise = otherwise
  first_template (List.◌∷◌ c cs) is_html context otherwise = elim (jinja c is_html context) [
    | not_found ↦ first_template cs is_html context otherwise
    | text t ↦ rendered t
    | error cause ↦ render_error c cause
  ]

  unfoldable pub render : String → String → Fields → Bool → Rendered
  unfolding candidates first_template fallback
  render name lang context is_html =
      first_template (candidates name lang) is_html context (fallback name lang context)

  -- an error of the subject's template is an empty subject
  unfoldable pub render_subject : String → String → Fields → String
  unfolding render
  render_subject name lang context = elim (render (name <> "_subject") lang context false) [
    | rendered t ↦ t
    | render_error _ _ ↦ ""
  ]
