-- ===== src/Fetchmail/Configuration.antt =====
-- `_cloudflare_configuration`: the contract with the Worker, as the form shows it.
use odoo_cloudflare_email.Prelude.{◌++◌}
use odoo_cloudflare_email.Text.{Text, codes}
use odoo_cloudflare_email.Text.Number.{decimal}
use odoo_cloudflare_email.Fetchmail.Signature.{signature_scheme, signature_tolerance}

unfoldable pub cloudflare_configuration : Text
unfolding decimal
cloudflare_configuration =
    codes "Deploy the Cloudflare Email Worker (@avunu/mail-cloudflare-worker) and route\n"
    ++ (codes "the alias domain's addresses to it: Cloudflare > Email Routing > Send to a Worker.\n"
        ++ (codes "\n"
            ++ (codes "Worker environment:\n"
                ++ (codes "  ODOO_INBOUND_URL     the Webhook URL below (wrangler.jsonc \"vars\")\n"
                    ++ (codes
                          "  ODOO_WEBHOOK_SECRET  the Webhook Secret below (wrangler secret put)\n"
                        ++ (codes "\n"
                            ++ (codes
                                  "Every inbound message is POSTed to the Webhook URL as Content-Type\n"
                                ++ (codes
                                      "message/rfc822 (the raw RFC 5322 message) with these headers:\n"
                                    ++ (codes
                                          "  X-Mail-Cloudflare-Id             Worker queue id of the message\n"
                                        ++ (codes
                                              "  X-Mail-Cloudflare-Timestamp      Unix seconds; rejected outside +/- "
                                            ++ (decimal signature_tolerance
                                                ++ (codes " s\n"
                                                    ++ (codes "  X-Mail-Cloudflare-Signature      "
                                                        ++ (signature_scheme
                                                            ++ (codes
                                                            "=<hex HMAC-SHA256(secret, \"<timestamp>.\" + body)>\n"
                                                            ++ (codes
                                                            "  X-Mail-Cloudflare-Envelope-From  SMTP MAIL FROM (empty for bounces)\n"
                                                            ++ (codes
                                                            "  X-Mail-Cloudflare-Envelope-To    SMTP RCPT TO, the routed address\n"
                                                            ++ (codes
                                                            "  X-Mail-Cloudflare-Attempt        delivery attempt, starting at 1\n"
                                                            ++ (codes "\n"
                                                            ++ (codes "Responses (JSON):\n"
                                                            ++ (codes
                                                            "  200  delivered; {\"ok\": true, \"thread_id\": <record id or false>}\n"
                                                            ++ (codes
                                                            "  401  bad or missing signature, stale timestamp     -> Worker marks it rejected\n"
                                                            ++ (codes
                                                            "  404  unknown key, server not confirmed or archived -> rejected\n"
                                                            ++ (codes
                                                            "  422  no route: no alias matched, no fallback model -> rejected\n"
                                                            ++ (codes
                                                            "  500  anything else                                 -> retried with back-off\n")))))))))))))))))))))))))
