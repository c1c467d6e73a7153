-- ===== src/Welcome/Script.antt =====
-- The text template internal/welcome/templates/install.sh.tmpl: the parts between its actions.
use mathlib.Core.List.{flatten}
use dockerdynomesh.Prelude.{[], ◌∷◌}
use dockerdynomesh.Text.{Text, codes}

-- In front of the machine's name.
unfoldable pub before_machine : Text
before_machine =
    flatten (codes "#!/bin/sh\n" ∷ codes "# dockerdynomesh root CA installer for " ∷ [])

-- In front of the setup host, behind the opening quote.
unfoldable pub before_setup : Text
before_setup = flatten (
    codes "\n"
    ∷ codes "# Verifies the downloaded root signs the live TLS endpoint before installing.\n"
    ∷ codes "set -eu\n"
    ∷ codes "\n"
    ∷ codes "SETUP_HOST=\""
    ∷ [])

-- Between the closing quote of the setup host and the opening quote of the other.
abbrev pub before_tls : Text
before_tls = codes "\nTLS_HOST=\""

-- Behind the closing quote of the host, up to the name of the installed file.
unfoldable pub before_file : Text
before_file = flatten (
    codes "\n"
    ∷ codes "TMP=$(mktemp -d)\n"
    ∷ codes "trap 'rm -rf \"$TMP\"' EXIT\n"
    ∷ codes "\n"
    ∷ codes "echo \"==> Downloading root cert from http://$SETUP_HOST/root.crt\"\n"
    ∷ codes "curl -fsSL \"http://$SETUP_HOST/root.crt\" -o \"$TMP/root.crt\"\n"
    ∷ codes "\n"
    ∷ codes "echo \"==> Verifying root signs the live cert on https://$TLS_HOST\"\n"
    ∷ codes "if ! echo | openssl s_client -connect \"$TLS_HOST:443\" -servername \"$TLS_HOST\" \\\n"
    ∷ codes "        -CAfile \"$TMP/root.crt\" -verify_return_error >/dev/null 2>&1; then\n"
    ∷ codes
        "  echo \"FAILED: downloaded root does not verify the live TLS chain on $TLS_HOST.\" >&2\n"
    ∷ codes "  echo \"This may indicate tampering or a stale cert. Aborting install.\" >&2\n"
    ∷ codes "  exit 1\n"
    ∷ codes "fi\n"
    ∷ codes "echo \"    ✓ Verified: chain trusts the downloaded root.\"\n"
    ∷ codes "\n"
    ∷ codes "case \"$(uname -s)\" in\n"
    ∷ codes "  Darwin)\n"
    ∷ codes "    echo \"==> Installing into macOS System keychain (requires sudo)\"\n"
    ∷ codes "    sudo security add-trusted-cert -d -r trustRoot \\\n"
    ∷ codes "         -k /Library/Keychains/System.keychain \"$TMP/root.crt\"\n"
    ∷ codes "    ;;\n"
    ∷ codes "  Linux)\n"
    ∷ codes "    echo \"==> Installing into /usr/local/share/ca-certificates (requires sudo)\"\n"
    ∷ codes "    sudo cp \"$TMP/root.crt\" \"/usr/local/share/ca-certificates/dockerdynomesh-"
    ∷ [])

-- Behind that.
unfoldable pub after_file : Text
after_file = flatten (
    codes ".crt\"\n"
    ∷ codes "    sudo update-ca-certificates\n"
    ∷ codes "    ;;\n"
    ∷ codes "  *)\n"
    ∷ codes "    echo \"Unsupported OS: $(uname -s)\" >&2\n"
    ∷ codes "    exit 1\n"
    ∷ codes "    ;;\n"
    ∷ codes "esac\n"
    ∷ codes "\n"
    ∷ codes
        "SUBJECT=$(openssl x509 -in \"$TMP/root.crt\" -noout -subject | sed 's/^subject= *//')\n"
    ∷ codes "echo \"✓ Trust established for: $SUBJECT\"\n"
    ∷ [])
