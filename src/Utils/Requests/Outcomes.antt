-- ===== src/Utils/Requests/Outcomes.antt =====
-- What the helpers accept.
use pay_ledger.Prelude.{
  String, ◌≡◌, ◌≢◌, ◌↔◌, refl, sym, ◌∙◌, ap, Option, none, some, ◌==◌, eq_iff, some_inj, Bool-cases,
  inl, inr,
}
use pay_ledger.Program.{Prog, pure, raise, call, ◌>>=◌, Exception, value_error, or_raise}
use pay_ledger.Domain.{Response}
use pay_ledger.Runtime.{or_else}
use pay_ledger.Api.Common.{resolve}
use pay_ledger.Utils.Requests.{
  Json, null, boolean, integer, float, array, text, object, Members, Loaded, loaded, decode_error,
  Library, HttpEvent, payload_get, text_or_none, required_str, path_parameter, parameter, body_text,
  object_or_bad, parse_json_body,
}

pure_inj : {A : Type 0} {a b : A} → pure a ≡ pure b → a ≡ b
pure_inj h = cc

bind-pure :
    {A B : Type 0} (m : Prog A) (f : A → Prog B) (b : B)
    → (m >>= f) ≡ pure b
    → (a : A) × (m ≡ pure a) × (f a ≡ pure b)
bind-pure (pure a) f b h = (a, refl, h)
bind-pure (raise e) f b h = cc
bind-pure (call r k) f b h = cc

-- `or_else value pure …`, where what else there is raises, gives a value just when there is one that
-- is not empty.
or_else-pure :
    (value : Option String) (e : Exception) (v : String)
    → (or_else value pure (raise e) ≡ pure v) ↔ ((value ≡ some v) × (v ≢ ""))
or_else-pure none e v = (λ h. cc, λ (h, full). cc)
or_else-pure (some s) e v = elim (Bool-cases (s == "")) [
  | inl empty ↦
      rw empty (λ h. cc, λ (h, full). absurd (full (sym (some_inj h) ∙ (eq_iff s "").0 empty)))
  | inr full ↦ rw full (
    λ h. (ap some (pure_inj h), λ e. let same = (eq_iff s "").1 (pure_inj h ∙ e) in cc),
    λ (h, _). ap pure (some_inj h),
  )
]

-- `path_parameter` gives a text just when the path has the parameter with this text and it is not
-- empty.
path_parameter-accepts :
    (event : HttpEvent) (name v : String)
    → (path_parameter event name ≡ pure v)
      ↔ ((parameter event.path_parameters name ≡ some v) × (v ≢ ""))
unfolding path_parameter
path_parameter-accepts event name v = or_else-pure (parameter event.path_parameters name) _ v

text_or_none-some : (o : Option Json) {v : String} → text_or_none o ≡ some v → o ≡ some (text v)
text_or_none-some none h = cc
text_or_none-some (some (text t)) h = ap (λ x. some (text x)) (some_inj h)
text_or_none-some (some null) h = cc
text_or_none-some (some (boolean b)) h = cc
text_or_none-some (some (integer n)) h = cc
text_or_none-some (some (float x)) h = cc
text_or_none-some (some (array xs)) h = cc
text_or_none-some (some (object members)) h = cc

-- `required_str` gives a text just when the payload has it at this name and it is not empty.
required_str-accepts :
    (payload : Members) (name v : String)
    → (required_str payload name ≡ pure v) ↔ ((payload_get payload name ≡ some (text v)) × (v ≢ ""))
unfolding required_str
required_str-accepts payload name v =
    let (gives, given) = or_else-pure (text_or_none (payload_get payload name)) _ v in
    (
      λ h.
          let (there, full) = gives h in (text_or_none-some (payload_get payload name) there, full),
      λ (there, full). given (ap text_or_none there, full),
    )

or_raise-pure :
    {A : Type 0} (o : Option A) (e : Exception) {a : A} → or_raise o e ≡ pure a → o ≡ some a
or_raise-pure none e h = cc
or_raise-pure (some a) e h = ap some (pure_inj h)

object_or_bad-pure :
    (l : Loaded) {members : Members} → object_or_bad l ≡ pure members → l ≡ loaded (object members)
object_or_bad-pure (loaded (object members)) h = ap (λ x. loaded (object x)) (pure_inj h)
object_or_bad-pure (loaded null) h = cc
object_or_bad-pure (loaded (boolean b)) h = cc
object_or_bad-pure (loaded (integer n)) h = cc
object_or_bad-pure (loaded (float x)) h = cc
object_or_bad-pure (loaded (text t)) h = cc
object_or_bad-pure (loaded (array xs)) h = cc
object_or_bad-pure (decode_error exc) h = cc

module _ (lib : Library) where
  -- `parse_json_body` gives an object just when the body is there and not empty, decodes, where the
  -- event says that it is base64, to a text in UTF-8, and this text is the JSON of the object.
  parse_json_body-accepts :
      (event : HttpEvent) (members : Members)
      → (parse_json_body lib event ≡ pure members) ↔ (
          (raw : String) × (content : String) × (event.body ≡ some raw)
          × (raw ≢ "")
          × (body_text lib event.is_base64_encoded raw ≡ some content)
          × (lib.loads content ≡ loaded (object members)))
  unfolding parse_json_body
  parse_json_body-accepts event members = (
    λ h.
        let (raw, has_raw, rest) = bind-pure (or_else event.body pure _) _ members h in
        let (content, has_content, last) =
          bind-pure (or_raise (body_text lib event.is_base64_encoded raw) value_error) _ members
            rest in
        let (there, full) = (or_else-pure event.body _ raw).0 has_raw in
        (
          raw,
          content,
          there,
          full,
          or_raise-pure (body_text lib event.is_base64_encoded raw) value_error has_content,
          object_or_bad-pure (lib.loads content) last,
        ),
    λ (raw, content, there, full, decodes, parses).
        rw ((or_else-pure event.body _ raw).1 (there, full), decodes, parses) refl,
  )

  -- A body that is not empty and is said to be base64, but does not decode to a text in UTF-8, ends
  -- a route that parses it with a ValueError that the exception handlers let through: the
  -- caller gets no 400.
  parse_json_body-undecodable :
      (event : HttpEvent) (raw : String) (route : Members → Prog Response)
      → event.body ≡ some raw
      → raw ≢ ""
      → body_text lib event.is_base64_encoded raw ≡ none
      → resolve (parse_json_body lib event >>= route) ≡ raise value_error
  unfolding parse_json_body resolve
  parse_json_body-undecodable event raw route there full decodes =
      rw ((or_else-pure event.body _ raw).1 (there, full), decodes) refl
