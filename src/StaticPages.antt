-- ===== src/StaticPages.antt =====
-- internal/handler/landing.go, widget.go and docs.go: what is served as it is. The texts themselves
-- are only named here.
use abmcy_core_payment.Base.{String, not, ◌==◌, deref, if◌then◌else◌}
use abmcy_core_payment.World.{M}
use abmcy_core_payment.Http.{
  Request, Response, fixed, not_found_text, landing_html, widget_script, integration_markdown,
  respond,
}

-- `path` is `r.URL.Path`.
unfoldable pub landing : String → Request → M Response
landing path r =
    if not (path == "/")
    then respond 404 (fixed not_found_text)
    else respond 200 (fixed landing_html)

unfoldable pub widget_js : Request → M Response
widget_js r = respond 200 (fixed widget_script)

-- With `download` the text is an attachment.
unfoldable pub integration_doc : Request → M Response
integration_doc r =
    respond 200 (fixed (integration_markdown (not (deref (r.query "download") == ""))))
