-- ===== src/Host/ReverseProxy/Identity.antt =====
-- waserver/src/reverse_proxy.rs, lines 212 to 225: the identity header that an app gets.

-- The header of an identity, if there is one.
use wispers_access.Host.ReverseProxy.{
  Headers, forwarded_headers, identity_header, identity_or_none, inject_identity, insert, named,
  remove,
}
use wispers_access.Prelude.{
  Bool, Option, Text, [], arith, delete_where, none, refl, select, some, text_eq_refl, ◌++◌, ◌∙◌,
  ◌∷◌, ◌≡◌,
}

abbrev pub identity_of : Option Text → Headers
identity_of none = []
identity_of (some value) = (identity_header, value) ∷ []

select-delete_where : (p : Text × Text → Bool) (hs : Headers) → select p (delete_where p hs) ≡ []
select-delete_where p [] = refl
select-delete_where p (h ∷ hs) = ground (arith, select-delete_where p hs)

select-append :
    (p : Text × Text → Bool) (hs ks : Headers)
    → select p hs ≡ []
    → select p (hs ++ ks) ≡ select p ks
select-append p [] ks e = refl
select-append p (h ∷ hs) ks e = ground (arith, select-append p hs ks)

select-remove : (name : Text) (hs : Headers) → select (named name) (remove name hs) ≡ []
unfolding remove
select-remove name hs = select-delete_where (named name) hs

select-insert :
    (name value : Text) (hs : Headers)
    → select (named name) (insert name value hs) ≡ (name, value) ∷ []
unfolding insert
select-insert name value hs =
    select-append (named name) (remove name hs) ((name, value) ∷ []) (select-remove name hs)
    ∙ rw (text_eq_refl name)

identity_or_none-identity :
    (o : Option Text) (hs : Headers)
    → select (named identity_header) hs ≡ []
    → select (named identity_header) (identity_or_none o hs) ≡ identity_of o
unfolding identity_or_none
identity_or_none-identity none hs e = e
identity_or_none-identity (some value) hs e = select-insert identity_header value hs

-- Whatever headers a request has, the app gets one identity header, with the user id, or none when
-- the user id is no header value: never what the request said.
pub forwarded_headers-identity :
    (header_value : Text → Option Text) (user_id : Text) (headers : Headers)
    → select (named identity_header) (forwarded_headers header_value user_id headers)
      ≡ identity_of (header_value user_id)
unfolding forwarded_headers inject_identity
forwarded_headers-identity header_value user_id headers =
    identity_or_none-identity (header_value user_id) _ (select-remove identity_header _)
