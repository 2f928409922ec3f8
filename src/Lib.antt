-- ===== src/Lib.antt =====
-- Zentral: the parts of the server that decide what its agents run and what its operators see.
--
-- Santa (zentral/contrib/santa). The Santa agents on Macs fetch the rules on binaries, bundles
-- and certificates in batches. `Santa/Policy.antt` has the policies and their words,
-- `Santa/Rules.antt` the rules and their scopes, `Santa/Changes.antt` the query of
-- `_iter_new_rules` in models.py with a function for each table expression, `Santa/Machines.antt`
-- the table of the rules that were sent, and `Santa/Sync.antt` `get_next_rule_batch`.
-- `Santa/Configurations.antt` is `get_sync_server_config`, the settings that an agent gets. A
-- batch is acknowledged by the cursor of the next request; a request without one starts again.
-- `Santa/Sync/Rounds.antt` has `download`, the requests that an agent makes to `RuleDownloadView`
-- of views.py until a response has no cursor.
--
-- The rules are written by forms and by an API. `Santa/Targets.antt` is the table of targets,
-- `Santa/Forms.antt` `RuleForm` and `UpdateRuleForm` of forms.py, `Santa/RuleUpdates.antt` the
-- update that the form and the API share, `Santa/RuleSets.antt` the validation of serializers.py
-- and `Santa/RuleSets/Updates.antt` `RuleSetUpdate.post` of api_views.py. `Santa/Uploads.antt` is
-- `process_events` of events/__init__.py: the agents upload the binaries of a bundle, and a rule
-- on a bundle applies once they are all known. `Santa/Enrollments.antt` is the enrollment of a
-- machine in views.py and `Santa/Enrollments/Preflight.antt` the first request of a sync, which
-- tells the agent whether to drop the rules that it has.
--
-- The agents' logs are read by `parse_santa_log_message` of utils.py in `Santa/Logs.antt`, a
-- machine that goes over the characters with three states.
--
-- Inventory (zentral/contrib/inventory). `Inventory/Secrets.antt` has the enrollment secrets of
-- models.py, which the enrollment of an agent is checked with.
--
-- Incidents (zentral/core/incidents). Events of a probe open, raise and close incidents, and
-- users change their statuses. `Incidents/Status.antt` and `Incidents/Store.antt` are models.py:
-- statuses, the two tables with their unique constraints, and the payloads of events.
-- `Incidents/Updates.antt` is utils.py. An operation takes the tables and returns the new ones
-- with the payloads, or an error, and then the transaction is rolled back. The incidents that
-- other transactions insert between a read and an insertion are an argument, and the next key is
-- past theirs.
--
-- Probes (zentral/core/probes/base.py). A probe is a set of filters on machines, on the metadata
-- of events and on their payloads. `Probes/Payload.antt` is `get_flattened_payload_values`,
-- `Probes/Attributes.antt` the split of an attribute, `Probes/Filters.antt` the classes of
-- filters, `Probes/Serializers.antt` the validation of the body of a probe source, and
-- `Probes/Probe.antt` the loading of a probe from such a body, its tests and its export. The
-- `CharField` of the REST framework is a parameter there, which may rewrite a text or refuse it.
-- Incidents are opened for the events that a probe accepts.
--
-- Merkle tree objects (zentral/utils/mt_models.py). The inventory keeps what it hears of a
-- machine as objects that are never changed and are found by a hash of their fields.
-- `Merkle/Sorting.antt` and `Merkle/Hasher.antt` are the class `Hasher`, `Merkle/Trees.antt`
-- `prepare_commit_tree`, which puts the hash in each dictionary of a tree, and
-- `cleanup_commit_tree`, which takes it out. `Merkle/Objects.antt` has the fields of a model,
-- `get_mt_field` and `hash` of `AbstractMTObject`, and `Merkle/Commits.antt` `commit` of
-- `MTObjectManager`: a step takes the rows of all tables and gives them back with a result or an
-- exception, and rows that were stored before an exception stay, as they do outside a
-- transaction. `Merkle/Results.antt` has the exceptions. In a tree a date is its ISO text, a
-- number its `str`, and a hash that the tree brings along is a text.
--
-- `Base.antt` and its children have the names and the lemmas on lists and tests that they share.
--
-- Bounds. `download` has the number of requests as fuel. A request acknowledges what the one
-- before it sent, so the rules that are left become fewer with each batch, and one request more
-- than there are rules to send is enough. The random cursors of the server are an argument, a
-- function from the number of the request. `commit` has the depth of its calls as fuel and raises
-- a RecursionError without it, as the interpreter does; one call more than dictionaries are
-- nested is enough. Everything else is structural recursion. Digests are numbers in the order of
-- their hexadecimal text. PostgreSQL's order of rows with the same digest is left open by the
-- source, and is that of the list here. Python's `str` of a nested value and `list.sort` are
-- arguments.
--
-- Sets are lists, so the order of a set that the source leaves open is that of the list. The
-- built-in functions `sorted` of the rule sets and `str.strip`, the time and the keys of the tags
-- are arguments. So are SHA-1, `make_naive`, the parser of dates, `int` and `str.split`, the
-- constraints of the database and `full_clean` for the Merkle tree objects, and what other
-- processes store while an object is committed.
--
-- Not modelled: the difference and the serialisation of Merkle tree objects, the other web views
-- and forms, the cache of the sync views, the server's own log lines, the metrics, the files and
-- the snapshots that the inventory keeps of a machine, and the other applications of the server
-- (munki, monolith, mdm, osquery and the integrations).
pub mod Base
pub mod Incidents
pub mod Inventory
pub mod Merkle
pub mod Probes
pub mod Santa
