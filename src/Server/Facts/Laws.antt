-- ===== src/Server/Facts/Laws.antt =====
-- What a POST keeps of a fact that exists, and what it writes.
use ragamuffin.Base.{ℕ, ◌≡◌, refl, ◌∙◌, List, [], ◌∷◌, All}
use ragamuffin.Base.Int.{pos}
use ragamuffin.Text.{Text, codes, same_text}
use ragamuffin.Store.Payload.{
  Fields, lookup_field, string_payload, get_payload_float_value, get_payload_bool_value, or_zero,
  get_string_value, get_double_value, get_bool_value,
}
use ragamuffin.Store.Payload.Access.{
  string_list, nv_list, get_payload_string_list, get_payload_int, get_payload_float, present,
}
use ragamuffin.Store.Payload.Access.Laws.{lookup_field-set_field}
use ragamuffin.Store.Payload.Access.Lists.{
  IsNotEmpty, string_list-nv_list, All-get_payload_string_list,
}
use ragamuffin.Server.{Settings}
use ragamuffin.Server.Facts.{
  Lifecycle, read_lifecycle, with_defaults, post_payload, fact_fields, tags_if_any, FactPayload,
  set_payload_tags,
}

read_lifecycle-tags_if_any :
    (tags : List Text) (p : Fields) → read_lifecycle (tags_if_any tags p) ≡ read_lifecycle p
unfolding read_lifecycle tags_if_any set_payload_tags same_text string_payload
    get_payload_float_value get_payload_bool_value get_payload_string_list
read_lifecycle-tags_if_any [] p = refl
read_lifecycle-tags_if_any (t ∷ tags) p = simp (lookup_field-set_field)

read_lifecycle-fact_fields :
    (cfg : Settings) (now : ℕ) (l : Lifecycle) (fp : FactPayload)
    → All IsNotEmpty l.contradicts
    → All IsNotEmpty l.supports
    → read_lifecycle (fact_fields cfg now l fp) ≡ l
unfolding read_lifecycle string_payload get_payload_float_value get_payload_bool_value fact_fields
    same_text lookup_field or_zero get_string_value get_double_value get_bool_value
    get_payload_string_list
read_lifecycle-fact_fields cfg now l fp c s =
    rw (string_list-nv_list l.contradicts c, string_list-nv_list l.supports s) refl

-- Lists as a payload gives them have no empty string.
abbrev pub IsRead : Lifecycle → Type 0
IsRead l = All IsNotEmpty l.contradicts × All IsNotEmpty l.supports

pub IsRead-read_lifecycle : (p : Fields) → IsRead (read_lifecycle p)
unfolding read_lifecycle
IsRead-read_lifecycle p = (
  All-get_payload_string_list p (codes "contradicts"),
  All-get_payload_string_list p (codes "supports"),
)

-- What the server manages is read back from the new payload as it was, with the defaults for what
-- was empty.
pub read_lifecycle-post_payload :
    (cfg : Settings) (now : ℕ) (l : Lifecycle) (fp : FactPayload)
    → IsRead l
    → read_lifecycle (post_payload cfg now (with_defaults (cfg.format_time now) l) fp)
      ≡ with_defaults (cfg.format_time now) l
unfolding post_payload with_defaults
read_lifecycle-post_payload cfg now l fp (c, s) =
    let m = with_defaults (cfg.format_time now) l in
    read_lifecycle-tags_if_any fp.tags (fact_fields cfg now m fp)
    ∙ read_lifecycle-fact_fields cfg now m fp c s

-- The fields that a response shows of what POST does not carry over, and of the version.
abbrev pub IsFresh : Fields → Type 0
IsFresh p =
    (get_payload_int p (codes "version") ≡ pos 0)
    × (get_payload_string_list p (codes "related_chunks") ≡ [])
    × (get_payload_string_list p (codes "reconsolidation_chain") ≡ [])

IsFresh-tags_if_any : (tags : List Text) (p : Fields) → IsFresh p → IsFresh (tags_if_any tags p)
unfolding tags_if_any set_payload_tags get_payload_int get_payload_float get_payload_string_list
    same_text
IsFresh-tags_if_any [] p h = h
IsFresh-tags_if_any (t ∷ tags) p (a, b, c) = (
  rw
      (
        lookup_field-set_field (codes "fact_tags") (codes "version") (nv_list (t ∷ tags)) p,
        get_payload_int,
        get_payload_float,
      )
      a,
  rw
      (
        lookup_field-set_field (codes "fact_tags") (codes "related_chunks") (nv_list (t ∷ tags)) p,
        get_payload_string_list,
      )
      b,
  rw
      (
        lookup_field-set_field (codes "fact_tags") (codes "reconsolidation_chain")
            (nv_list (t ∷ tags)) p,
        get_payload_string_list,
      )
      c,
)

-- What is posted reads back as version 0, without linked chunks, and without the chain of its
-- reconsolidations, whatever the fact had.
pub IsFresh-post_payload :
    (cfg : Settings) (now : ℕ) (l : Lifecycle) (fp : FactPayload)
    → IsFresh (post_payload cfg now l fp)
unfolding post_payload fact_fields same_text lookup_field get_payload_string_list get_payload_int
    get_payload_float present get_double_value string_list
IsFresh-post_payload cfg now l fp =
    IsFresh-tags_if_any fp.tags (fact_fields cfg now l fp) (refl, refl, refl)

value-tags_if_any :
    (tags : List Text) (p : Fields)
    → string_payload (tags_if_any tags p) (codes "fact_value")
      ≡ string_payload p (codes "fact_value")
unfolding tags_if_any set_payload_tags string_payload same_text
value-tags_if_any [] p = refl
value-tags_if_any (t ∷ tags) p = simp (lookup_field-set_field)

pub value-post_payload :
    (cfg : Settings) (now : ℕ) (l : Lifecycle) (fp : FactPayload)
    → string_payload (post_payload cfg now l fp) (codes "fact_value") ≡ fp.value
unfolding post_payload fact_fields string_payload lookup_field same_text or_zero get_string_value
value-post_payload cfg now l fp = value-tags_if_any fp.tags (fact_fields cfg now l fp)
