-- ===== src/Tests/Redirections.antt =====
-- The theorems on redirects, at a network that redirects a POST to another domain once.
use ocfp.Prelude.{
  ◌+◌, ◌≤◌, ◌≡◌, true, some, List, [], ◌∷◌, Bytes, bytes, ◌==◌, eqb, if◌then◌else◌, length,
}
use ocfp.Upstream.Redirects.{Net, Client, Target, Request, Exchange, End, attempt, max_redirects}
use ocfp.Upstream.Redirects.Chains.{attempt_ends}

abbrev first : Target
first = record { scheme = bytes "https"; host = bytes "h"; hostname = bytes "h"; text = bytes "u" }

abbrev elsewhere : Target
elsewhere = record {
  scheme = bytes "https";
  host = bytes "k";
  hostname = bytes "k";
  text = bytes "w";
}

-- what a Location resolves to: its port is empty, and parsing it again takes the colon off
abbrev resolved : Target
resolved = record {
  scheme = bytes "https";
  host = bytes "k:";
  hostname = bytes "k";
  text = bytes "w";
}

abbrev net : Net
net = record {
  parse = λ text. some (if text == bytes "u" then first else elsewhere);
  resolve = λ base location. some resolved;
  canonical = λ name. name;
  send = λ n r.
      Exchange.answered record { status = if eqb n 0 then 302 else 200; location = bytes "w" };
}

abbrev client : Client
client = record { follows = true; has_tunnel = true }

abbrev headers : List (Bytes × Bytes)
headers = (bytes "Authorization", bytes "s") ∷ (bytes "Content-Type", bytes "j") ∷ []

attempt_ends_example :
    (e : End) × (rs : List Request) × (attempt net client headers (bytes "b") (bytes "u")
      ≡ some (e, rs))
    × (length rs ≤ max_redirects + 1)
attempt_ends_example = attempt_ends net client headers (bytes "b") (bytes "u")

abbrev ended :
    (e : End) × (rs : List Request) × (attempt net client headers (bytes "b") (bytes "u")
      ≡ some (e, rs))
    × (length rs ≤ max_redirects + 1)
ended = attempt_ends net client headers (bytes "b") (bytes "u")
